-- ===== src/Ctrd/Proxy.antt =====
-- ctrd/image_proxy_util.go: the registry's credential, and which proxy a request to it takes. A length
-- and a position count code points; every text that is cut or compared is cut at an ASCII character.
pub mod Environment
pub mod HostPort
pub mod Exempt
pub mod Choice
use d2p_migrator.Prelude.{
  ℕ, suc, ◌+◌, ◌-◌, Bool, true, false, ◌||◌, ◌&&◌, not, List, [], ◌∷◌, ◌++◌, map, Option, none,
  some, Str, str, ◌==◌, eqb, ltb, if◌then◌else◌, length, get_elem?, take, contains, has_suffix,
  split, trim_space,
}
use d2p_migrator.Prelude.Dict.{get_str, Dict}
use d2p_migrator.Prelude.Result.{Result, ok, err, panic, ◌>>=◌, deref, errorf, quoted}
use d2p_migrator.Prelude.Strings.{last_index, index_byte, above, drop}
use d2p_migrator.Ctrd.Reference.{cut}
use d2p_migrator.Ctrd.Proxy.Environment.{EnvOnce, no_proxy_env, get_env_once}
use d2p_migrator.Ctrd.Proxy.HostPort.{Url, has_port, cut_port, canonical_addr, split_host_port}

-- The variables of the file: the proxy and the credential for the registry.
pub record Registry : Type 0 where
  pub proxy : Str
  pub username : Str
  pub secret : Str

-- `SetImageProxy`
unfoldable pub set_image_proxy : Str → Registry → Registry
set_image_proxy p r = record r { proxy = p }

-- `SetCredential`: the user is cut at the first colon, unless that stands first.
unfoldable pub set_credential : Str → Registry → Registry
set_credential user r = elim (cut b':' user) [
  | none ↦ record r { username = user }
  | some (before, after) ↦
      if before == []
      then record r { username = user }
      else record r { username = before; secret = after }
]

-- What the file asks of packages `net`, `net/url` and `unicode`: whether a host is the text of a loopback
-- address, the parse of an URL, and the lower case of a character.
pub record Net : Type 0 where
  pub is_loopback : Str → Bool
  pub parse_url : Str → Result Url
  pub lower : ℕ → ℕ

-- `addr[len(addr)-len(p)-1] == '.'`, which panics where `addr` is not longer than `p`.
dot_before : Str → Str → Result Bool
dot_before addr p =
    let found = get_elem? addr (length addr - length p - 1) in
    deref (if ltb (length p) (length addr) then found else none) >>= λ c. ok (eqb c b'.')

-- One entry of the list, without its port, against an address without its port.
unfoldable pub exempts : Str → Str → Result Bool
unfolding dot_before
exempts addr [] = ok (addr == [])
exempts addr (c ∷ p) =
    let dotted = dot_before addr (c ∷ p) in
    if addr == (c ∷ p)
    then ok true
    else if eqb c b'.' && (has_suffix addr (c ∷ p) || addr == p)
    then ok true
    else if not (eqb c b'.') && has_suffix addr (c ∷ p)
    then dotted
    else ok false

module _ (net : Net) where
  -- `strings.ToLower(strings.TrimSpace(s))`
  abbrev pub normal : Str → Str
  normal s = map (λ c. net.lower c) (trim_space s)

  -- The loop over the entries of the list. An empty entry is skipped.
  unfoldable pub entries_loop : Str → List Str → Result Bool
  unfolding exempts cut_port
  entries_loop addr [] = ok true
  entries_loop addr (p ∷ ps) =
      let rest = entries_loop addr ps in
      let tested = exempts addr (cut_port (normal p)) >>= λ hit. if hit then ok false else rest in
      if normal p == [] then rest else tested

  -- `useProxy` behind its first tests, for a host and the value of the environment.
  unfoldable pub use_proxy_list : Str → Str → Result Bool
  unfolding entries_loop cut_port
  use_proxy_list addr no_proxy =
      let looped = entries_loop (cut_port (normal addr)) (split b',' no_proxy) in
      if no_proxy == str "*" then ok false else looped

  -- `useProxy`. The environment is only read where the host is a remote one.
  unfoldable pub use_proxy : List Str → Str → EnvOnce → Result Bool × EnvOnce
  unfolding use_proxy_list get_env_once split_host_port
  use_proxy environ addr e =
      let (no_proxy, e') = get_env_once environ e in
      if addr == [] then (ok true, e) else elim (split_host_port addr) [
        | none ↦ (ok false, e)
        | some host ↦
            if host == str "localhost" || net.is_loopback host
            then (ok false, e)
            else (use_proxy_list addr no_proxy, e')
      ]

  -- The proxy's own scheme is one that `net/http` can use.
  abbrev pub known_scheme : Url → Bool
  known_scheme url =
      url.scheme == str "http" || url.scheme == str "https" || url.scheme == str "socks5"

  -- What is returned where `url.Parse(proxy)` or its scheme is wrong, and the retry too.
  abbrev pub complain : Str → Result Url → Result (Option Url)
  complain proxy (ok url) = ok (some url)
  complain proxy (err e) =
      errorf (str "invalid proxy address " ++ (quoted proxy ++ (str ": " ++ e.text)))
  complain proxy panic = panic

  abbrev pub retried : Result (Option Url) → Result Url → Result (Option Url)
  retried otherwise (ok url) = ok (some url)
  retried otherwise (err _) = otherwise
  retried otherwise panic = panic

  abbrev pub usable : Result Url → Bool
  usable (ok url) = known_scheme url
  usable _ = false

  unfoldable pub proxy_url : Str → Result (Option Url)
  proxy_url proxy =
      let first = net.parse_url proxy in
      let again = net.parse_url (str "http://" ++ proxy) in
      if usable first then complain proxy first else retried (complain proxy first) again

  unfoldable pub choose : Str → Result Bool → Result (Option Url)
  unfolding proxy_url
  choose proxy (ok true) = proxy_url proxy
  choose proxy (ok false) = ok none
  choose proxy (err e) = err e
  choose proxy panic = panic

  -- `proxyFromEnvironment`, for a request to `url`. `none` is a request without a proxy.
  unfoldable pub proxy_from_environment :
      List Str → Registry → Url → EnvOnce → Result (Option Url) × EnvOnce
  unfolding choose use_proxy canonical_addr
  proxy_from_environment environ registry url e =
      let (wanted, e') = use_proxy environ (canonical_addr url) e in
      if registry.proxy == [] || url.scheme == str "https"
      then (ok none, e)
      else (choose registry.proxy wanted, e')

-- The options of the resolver, with the timeouts of its transport in seconds. Its `Proxy` is
-- `proxy_from_environment`.
pub record ResolverOptions : Type 0 where
  pub plain_http : Bool
  pub credentials : Str → Str × Str
  pub dial_timeout : ℕ
  pub keep_alive : ℕ
  pub max_idle_conns : ℕ
  pub idle_conn_timeout : ℕ
  pub tls_handshake_timeout : ℕ
  pub insecure_skip_verify : Bool
  pub expect_continue_timeout : ℕ

-- `resolver`: the same credential for every host.
unfoldable pub resolver : Registry → ResolverOptions
resolver registry = record {
  plain_http = false;
  credentials = λ host. (registry.username, registry.secret);
  dial_timeout = 30;
  keep_alive = 30;
  max_idle_conns = 10;
  idle_conn_timeout = 30;
  tls_handshake_timeout = 10;
  insecure_skip_verify = false;
  expect_continue_timeout = 5;
}
