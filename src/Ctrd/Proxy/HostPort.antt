-- ===== src/Ctrd/Proxy/HostPort.antt =====
-- ctrd/image_proxy_util.go: hosts and ports, as the file and package `net` read and join them. A length and a
-- position count code points; every text that is cut is cut at an ASCII character.
pub mod RoundTrip
use d2p_migrator.Prelude.{
  ℕ, suc, ◌+◌, ◌-◌, Bool, true, false, ◌||◌, ◌&&◌, not, List, [], ◌∷◌, ◌++◌, map, Option, none,
  some, Str, str, ◌==◌, eqb, ltb, if◌then◌else◌, length, get_elem?, take, contains, has_suffix,
  split, trim_space,
}
use d2p_migrator.Prelude.Dict.{get_str, Dict}
use d2p_migrator.Prelude.Strings.{last_index, index_byte, above, drop}

-- What the file reads of an URL.
pub record Url : Type 0 where
  pub scheme : Str
  pub hostname : Str
  pub port : Str

-- `hasPort`
unfoldable pub has_port : Str → Bool
unfolding last_index
has_port s = above (last_index b':' s) (last_index b']' s)

-- `if hasPort(s) { s = s[:strings.LastIndex(s, ":")] }`
unfoldable pub cut_port : Str → Str
unfolding has_port last_index
cut_port s =
    let host : Str = elim (last_index b':' s) [ none ↦ s | some i ↦ take i s ] in
    if has_port s then host else s

-- `net.JoinHostPort(host, port)`
unfoldable pub join_host_port : Str → Str → Str
unfolding index_byte
join_host_port host port = elim (index_byte b':' host) [
  | none ↦ host ++ (b':' ∷ port)
  | some _ ↦ b'[' ∷ (host ++ (b']' ∷ (b':' ∷ port)))
]

-- Neither bracket stands in the parts of the text that `net.SplitHostPort` looks at last.
abbrev pub no_brackets : Str → Str → Bool
no_brackets opening closing = elim (index_byte b'[' opening) [
  | some _ ↦ false
  | none ↦ elim (index_byte b']' closing) [ some _ ↦ false | none ↦ true ]
]

-- A host in brackets: the closing one is right before the last colon.
split_bracketed : Str → ℕ → Option Str
unfolding index_byte
split_bracketed s i = elim (index_byte b']' s) [
  | none ↦ none
  | some end ↦
      if eqb (suc end) i && no_brackets (drop 1 s) (drop (suc end) s)
      then some (drop 1 (take end s))
      else none
]

-- A host without brackets: it has no colon.
split_plain : Str → ℕ → Option Str
unfolding index_byte
split_plain s i = elim (index_byte b':' (take i s)) [
  | some _ ↦ none
  | none ↦ if no_brackets s s then some (take i s) else none
]

-- The host of `net.SplitHostPort(s)`, or `none` where that is an error.
unfoldable pub split_host_port : Str → Option Str
unfolding split_bracketed split_plain last_index
split_host_port s = elim (last_index b':' s) [
  | none ↦ none
  | some i ↦ elim s [
    | [] ↦ none
    | c ∷ rest ↦ if eqb c b'[' then split_bracketed (c ∷ rest) i else split_plain (c ∷ rest) i
  ]
]

abbrev pub port_map : Dict Str
port_map = (str "http", str "80") ∷ (str "https", str "443") ∷ (str "socks5", str "1080") ∷ []

-- `canonicalAddr`
unfoldable pub canonical_addr : Url → Str
unfolding join_host_port
canonical_addr url =
    let port = if url.port == [] then get_str url.scheme port_map else url.port in
    join_host_port url.hostname port
