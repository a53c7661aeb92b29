-- ===== src/Ctrd/Proxy/Choice.antt =====
-- ctrd/image_proxy_util.go: when a request goes without a proxy, and which proxy it takes otherwise.
use d2p_migrator.Prelude.{
  ◌≡◌, refl, Bool, true, false, List, [], ◌∷◌, ◌++◌, Option, none, some, Str, str, ◌⊎◌, inl, inr,
  ◌≢◌, if◌then◌else◌, arith, split, Bool-cases, Option-cases, dec_str,
}
use d2p_migrator.Prelude.Result.{Result, ok, err, panic}
use d2p_migrator.Ctrd.Proxy.{
  Net, Registry, normal, entries_loop, use_proxy_list, use_proxy, proxy_from_environment, choose,
  proxy_url, complain, retried, usable,
}
use d2p_migrator.Ctrd.Proxy.Environment.{EnvOnce, get_env_once}
use d2p_migrator.Ctrd.Proxy.HostPort.{Url, cut_port, split_host_port, canonical_addr}
use d2p_migrator.Ctrd.Proxy.Exempt.{Covers, exempts-Covers}

-- A request goes without the proxy where `P` holds, with it where it does not, and the test does not panic.
abbrev pub Bypass {κ} : Result Bool → Type κ → Type κ
Bypass r P = ((r ≡ ok false) × P) ⊎ ((r ≡ ok true) × ¬ P)

module _ (net : Net) where
  -- An entry that is not blank stands for the address.
  abbrev pub Listed : Str → List Str → Type 0
  Listed addr [] = ⊥
  Listed addr (p ∷ ps) =
      ((normal net p ≢ []) × Covers addr (cut_port (normal net p))) ⊎ Listed addr ps

  entries_loop-Listed :
      (addr : Str) (ps : List Str) → Bypass (entries_loop net addr ps) (Listed addr ps)
  unfolding entries_loop
  entries_loop-Listed addr [] = inr (refl, λ x. x)
  entries_loop-Listed addr (p ∷ ps) = elim (dec_str (normal net p) []) [
    | yes blank ↦ elim (entries_loop-Listed addr ps) [
      | inl (e, listed) ↦ inl (ground (arith, e, blank), inr listed)
      | inr (e, other) ↦ inr (
        ground (arith, e, blank),
        λ found. elim found [ inl (filled, _) ↦ filled blank | inr listed ↦ other listed ],
      )
    ]
    | no filled ↦ elim (exempts-Covers addr (cut_port (normal net p))) [
      | inl (e, covers) ↦ inl (ground (arith, e, filled), inl (filled, covers))
      | inr (e, apart) ↦ elim (entries_loop-Listed addr ps) [
        | inl (rest, listed) ↦ inl (ground (arith, e, filled, rest), inr listed)
        | inr (rest, other) ↦ inr (
          ground (arith, e, filled, rest),
          λ found. elim found [ inl (_, covers) ↦ apart covers | inr listed ↦ other listed ],
        )
      ]
    ]
  ]

  -- Why a list of the environment keeps a request from the proxy.
  abbrev pub Exempted : Str → Str → Type 0
  Exempted addr no_proxy =
      (no_proxy ≡ str "*") ⊎ Listed (cut_port (normal net addr)) (split b',' no_proxy)

  use_proxy_list-Exempted :
      (addr no_proxy : Str) → Bypass (use_proxy_list net addr no_proxy) (Exempted addr no_proxy)
  unfolding use_proxy_list
  use_proxy_list-Exempted addr no_proxy = elim (dec_str no_proxy (str "*")) [
    | yes all ↦ inl (ground (arith, all), inl all)
    | no some_hosts ↦
        elim (entries_loop-Listed (cut_port (normal net addr)) (split b',' no_proxy)) [
          | inl (e, listed) ↦ inl (ground (arith, e, some_hosts), inr listed)
          | inr (e, other) ↦ inr (
            ground (arith, e, some_hosts),
            λ found. elim found [ inl all ↦ some_hosts all | inr listed ↦ other listed ],
          )
        ]
  ]

  -- Why a request to a host goes without the proxy.
  abbrev pub HostDirect : Str → Str → Option Str → Type 0
  HostDirect addr no_proxy none = Unit
  HostDirect addr no_proxy (some host) =
      (host ≡ str "localhost") ⊎ ((net.is_loopback host ≡ true) ⊎ Exempted addr no_proxy)

  abbrev pub Direct : Str → Str → Type 0
  Direct addr no_proxy = (addr ≢ []) × HostDirect addr no_proxy (split_host_port addr)

  -- A request to an address goes without the proxy exactly where one of the reasons holds: no port can be
  -- split off, the host is localhost or a loopback address, or the environment's list is a star or has an
  -- entry for the host. The test never panics.
  pub use_proxy-Direct :
      (environ : List Str) (addr : Str) (e : EnvOnce)
      → Bypass ((use_proxy net environ addr e).0) (Direct addr ((get_env_once environ e).0))
  unfolding use_proxy
  use_proxy-Direct environ addr e = elim (dec_str addr []) [
    | yes empty ↦ inr (ground (arith, empty), λ direct. direct.0 empty)
    | no filled ↦ elim (Option-cases (split_host_port addr)) [
      | inl unsplit ↦ inl (ground (arith, filled, unsplit), (filled, rw unsplit tt))
      | inr (host, cut) ↦ elim (dec_str host (str "localhost")) [
        | yes local ↦ inl (ground (arith, filled, cut, local), (filled, rw cut (inl local)))
        | no remote ↦ elim (Bool-cases (net.is_loopback host)) [
          | inl loop ↦
              inl (ground (arith, filled, cut, remote, loop), (filled, rw cut (inr (inl loop))))
          | inr outer ↦ elim (use_proxy_list-Exempted addr ((get_env_once environ e).0)) [
            | inl (r, exempted) ↦ inl (
              ground (arith, filled, cut, remote, outer, r),
              (filled, rw cut (inr (inr exempted))),
            )
            | inr (r, other) ↦ inr (
              ground (arith, filled, cut, remote, outer, r),
              λ direct. elim (rw cut at direct.1) [
                | inl local ↦ remote local
                | inr (inl loop) ↦ ground (arith, outer, loop)
                | inr (inr exempted) ↦ other exempted
              ],
            )
          ]
        ]
      ]
    ]
  ]

  -- The URL is the parse of the proxy's text, or of the text behind `http://`.
  abbrev pub Parsed : Str → Url → Type 0
  Parsed proxy url =
      (net.parse_url proxy ≡ ok url) ⊎ (net.parse_url (str "http://" ++ proxy) ≡ ok url)

  picked-parsed :
      (proxy : Str) (first again : Result Url) (url : Url)
      → (if usable net first
          then complain net proxy first
          else retried net (complain net proxy first) again)
        ≡ ok (some url)
      → (first ≡ ok url) ⊎ (again ≡ ok url)
  picked-parsed proxy (ok first) (ok again) url h = ground arith
  picked-parsed proxy (ok first) _ url h = ground arith
  picked-parsed proxy (err e) (ok again) url h = ground arith
  picked-parsed proxy (err e) _ url h = ground arith
  picked-parsed proxy panic (ok again) url h = ground arith
  picked-parsed proxy panic _ url h = ground arith

  proxy_url-Parsed :
      (proxy : Str) (url : Url) → proxy_url net proxy ≡ ok (some url) → Parsed proxy url
  unfolding proxy_url
  proxy_url-Parsed proxy url h =
      picked-parsed proxy (net.parse_url proxy) (net.parse_url (str "http://" ++ proxy)) url h

  -- A proxy is returned only for a request that is not https and has no reason to go without, where a proxy
  -- is set; and it is the parse of that setting, or of the setting behind `http://`.
  pub proxy_from_environment-some :
      (environ : List Str) (registry : Registry) (url : Url) (e : EnvOnce) (proxy : Url)
      → (proxy_from_environment net environ registry url e).0 ≡ ok (some proxy)
      → (url.scheme ≢ str "https")
        × (registry.proxy ≢ [])
        × (¬ Direct (canonical_addr url) ((get_env_once environ e).0))
        × Parsed registry.proxy proxy
  unfolding proxy_from_environment choose
  proxy_from_environment-some environ registry url e proxy h =
      elim (use_proxy-Direct environ (canonical_addr url) e) [
        | inl (r, direct) ↦ absurd (ground (arith, h, r))
        | inr (r, other) ↦ (
          λ https. ground (arith, h, https),
          λ unset. ground (arith, h, unset),
          other,
          proxy_url-Parsed registry.proxy proxy (ground (arith, h, r)),
        )
      ]
