-- ===== src/Ctrd/Proxy/HostPort/RoundTrip.antt =====
-- ctrd/image_proxy_util.go: the address of an URL, and what is read from it again.
use d2p_migrator.Prelude.{
  ℕ, suc, ◌≡◌, refl, ap, true, false, ◌||◌, [], ◌∷◌, ◌++◌, none, some, Str, str, ◌==◌, inl, inr,
  eqb, if◌then◌else◌, arith, Bool-cases, length, take, append_assoc, length-append,
}
use d2p_migrator.Prelude.Strings.{index_byte, last_index, drop}
use d2p_migrator.Prelude.Dict.{get_str, lookup}
use d2p_migrator.Ctrd.Reference.{contains_char}
use d2p_migrator.Ctrd.Proxy.HostPort.{
  Url, split_host_port, split_plain, split_bracketed, canonical_addr, join_host_port, port_map,
}

contains_char-append :
    (c : ℕ) (s t : Str) → contains_char c (s ++ t) ≡ (contains_char c s || contains_char c t)
unfolding contains_char
contains_char-append c [] t = refl
contains_char-append c (d ∷ s) t = ground (arith, contains_char-append c s t)

index_byte-none : (c : ℕ) (s : Str) → contains_char c s ≡ false → index_byte c s ≡ none
unfolding contains_char index_byte
index_byte-none c [] h = refl
index_byte-none c (d ∷ s) h = ground (arith, index_byte-none c s)

index_byte-first :
    (c : ℕ) (front behind : Str)
    → contains_char c front ≡ false
    → index_byte c (front ++ (c ∷ behind)) ≡ some (length front)
unfolding contains_char index_byte
index_byte-first c [] behind h = ground arith
index_byte-first c (d ∷ s) behind h = ground (arith, index_byte-first c s behind)

last_index-none : (c : ℕ) (s : Str) → contains_char c s ≡ false → last_index c s ≡ none
unfolding contains_char last_index
last_index-none c [] h = refl
last_index-none c (d ∷ s) h = ground (arith, last_index-none c s)

last_index-last :
    (c : ℕ) (front behind : Str)
    → contains_char c behind ≡ false
    → last_index c (front ++ (c ∷ behind)) ≡ some (length front)
unfolding last_index
last_index-last c [] behind h = ground (arith, last_index-none c behind h)
last_index-last c (d ∷ s) behind h = ground (arith, last_index-last c s behind h)

take-length : (s t : Str) → take (length s) (s ++ t) ≡ s
take-length [] t = refl
take-length (c ∷ s) t = ap (λ x. c ∷ x) (take-length s t)

drop-suc : (s : Str) (d : ℕ) (t : Str) → drop (suc (length s)) (s ++ (d ∷ t)) ≡ t
drop-suc [] d t = refl
drop-suc (c ∷ s) d t = drop-suc s d t

-- No bracket stands in the text.
abbrev pub Unbracketed : Str → Type 0
Unbracketed s = (contains_char b'[' s ≡ false) × (contains_char b']' s ≡ false)

absent-append :
    (c : ℕ) (s t : Str)
    → contains_char c s ≡ false
    → contains_char c t ≡ false
    → index_byte c (s ++ t) ≡ none
absent-append c s t hs ht = index_byte-none c (s ++ t) (ground (arith, contains_char-append c s t))

split_plain-some :
    (host port : Str)
    → Unbracketed host
    → Unbracketed port
    → contains_char b':' host ≡ false
    → split_plain (host ++ (b':' ∷ port)) (length host) ≡ some host
unfolding split_plain contains_char
split_plain-some host port (h1, h2) (p1, p2) colon = ground (
  arith,
  take-length host (b':' ∷ port),
  index_byte-none b':' host colon,
  absent-append b'[' host (b':' ∷ port) h1 p1,
  absent-append b']' host (b':' ∷ port) h2 p2,
)

split_bracketed-some :
    (host port : Str)
    → Unbracketed host
    → Unbracketed port
    → split_bracketed (b'[' ∷ (host ++ (b']' ∷ (b':' ∷ port)))) (suc (suc (length host)))
      ≡ some host
unfolding split_bracketed contains_char index_byte
split_bracketed-some host port (h1, h2) (p1, p2) =
    let rest : Str = b']' ∷ (b':' ∷ port) in
    ground (
      arith,
      index_byte-first b']' host (b':' ∷ port) h2,
      take-length host rest,
      drop-suc host b']' (b':' ∷ port),
      absent-append b'[' host rest h1 p1,
      index_byte-none b']' (b':' ∷ port) p2,
    )

-- The port that `canonicalAddr` takes.
abbrev pub port_of : Url → Str
port_of url = if url.port == [] then get_str url.scheme port_map else url.port

-- The ports of the table are numbers.
Plain : Str → Type 0
Plain s = Unbracketed s × (contains_char b':' s ≡ false)

get_str-Plain : (scheme : Str) → Plain (get_str scheme port_map)
unfolding get_str lookup contains_char Plain str
get_str-Plain scheme = ground arith

index_byte-some : (c : ℕ) (s : Str) → contains_char c s ≡ true → (i : ℕ) × (index_byte c s ≡ some i)
unfolding contains_char index_byte
index_byte-some c [] h = absurd (ground (arith, h))
index_byte-some c (d ∷ s) h = elim (Bool-cases (eqb d c)) [
  | inl here ↦ (0, rw here refl)
  | inr later ↦
      let (i, e) = index_byte-some c s (ground (arith, h, later)) in (suc i, rw (later, e) refl)
]

last_index-join :
    (host port : Str)
    → contains_char b':' port ≡ false
    → last_index b':' (b'[' ∷ (host ++ (b']' ∷ (b':' ∷ port)))) ≡ some (suc (suc (length host)))
unfolding last_index
last_index-join host port h = ground (
  arith,
  last_index-last b':' (host ++ (b']' ∷ [])) port h,
  append_assoc host (b']' ∷ []) (b':' ∷ port),
  length-append host (b']' ∷ []),
)

split_host_port-join_host_port :
    (host port : Str)
    → Unbracketed host
    → Plain port
    → split_host_port (join_host_port host port) ≡ some host
unfolding split_host_port join_host_port Plain contains_char
split_host_port-join_host_port host port h (p, colon) =
    elim (Bool-cases (contains_char b':' host)) [
      | inl inside ↦
          let (i, e) = index_byte-some b':' host inside in
          ground (arith, e, last_index-join host port colon, split_bracketed-some host port h p)
      | inr outside ↦ ground (arith, index_byte-none b':' host outside, plain host h outside)
    ]
  where
    plain :
        (host : Str)
        → Unbracketed host
        → contains_char b':' host ≡ false
        → split_host_port (host ++ (b':' ∷ port)) ≡ some host
    plain [] h outside =
        ground (arith, last_index-last b':' [] port colon, split_plain-some [] port h p outside)
    plain (c ∷ front) h outside = ground (
      arith,
      last_index-last b':' (c ∷ front) port colon,
      split_plain-some (c ∷ front) port h p outside,
    )

port_of-Plain :
    (url : Url) → Unbracketed url.port → contains_char b':' url.port ≡ false → Plain (port_of url)
unfolding Plain
port_of-Plain url p colon = ground (arith, get_str-Plain url.scheme)

-- What is split off the address of an URL is the URL's host name: where neither it nor the port has a bracket
-- and the port has no colon, such an address always has a port, which can be split off.
pub split_host_port-canonical_addr :
    (url : Url)
    → Unbracketed url.hostname
    → Unbracketed url.port
    → contains_char b':' url.port ≡ false
    → split_host_port (canonical_addr url) ≡ some url.hostname
unfolding split_host_port canonical_addr
split_host_port-canonical_addr url h p colon =
    split_host_port-join_host_port url.hostname (port_of url) h (port_of-Plain url p colon)
