-- ===== src/Ctrd/Jose/RoundTrip.antt =====
-- ctrd/image/converter.go: `joseBase64UrlDecode` against the encoding of RFC 7515, appendix C: base 64 with
-- the URL alphabet, and without padding.
use d2p_migrator.Prelude.{
  ℕ, suc, ◌+◌, ◌-◌, ◌*◌, ◌/◌, ◌%◌, ◌<◌, ◌≡◌, refl, ap, ◌∙◌, true, false, [], ◌∷◌, ◌++◌, Str, eqb,
  ltb, if◌then◌else◌, length, keep, arith, All, ◌≢◌,
}
use d2p_migrator.Prelude.Result.{Result, ok, ◌>>=◌}
use d2p_migrator.Ctrd.Jose.{
  value_of, pad, block4, last_block, full_block, decode_blocks, no_break, decode_string, padded,
  jose_base64_url_decode,
}

abbrev pub char_of : ℕ → ℕ
char_of n =
    if ltb n 26
    then b'A' + n
    else if ltb n 52
    then b'a' + (n - 26)
    else if ltb n 62
    then b'0' + (n - 52)
    else if eqb n 62
    then b'-'
    else b'_'

-- The encoding, three bytes at a time.
abbrev pub encode : Str → Str
encode [] = []
encode (a ∷ []) = char_of (a / 4) ∷ (char_of (a % 4 * 16) ∷ [])
encode (a ∷ b ∷ []) =
    char_of (a / 4) ∷ (char_of (a % 4 * 16 + b / 16) ∷ (char_of (b % 16 * 4) ∷ []))
encode (a ∷ b ∷ c ∷ s) =
    char_of (a / 4)
    ∷ (char_of (a % 4 * 16 + b / 16)
        ∷ (char_of (b % 16 * 4 + c / 64) ∷ (char_of (c % 64) ∷ encode s)))

-- Each is a byte.
abbrev pub Bytes : Str → Type 0
Bytes s = All (λ c. c < 256) s

padding : Str → Str
padding [] = []
padding (a ∷ []) = pad ∷ (pad ∷ [])
padding (a ∷ b ∷ []) = pad ∷ []
padding (a ∷ b ∷ c ∷ s) = padding s

value_of-char_of : (n : ℕ) → n < 64 → value_of (char_of n) ≡ ok n
unfolding value_of
value_of-char_of n h = ground arith

char_of-ne-pad : (n : ℕ) → eqb (char_of n) pad ≡ false
char_of-ne-pad n = ground arith

char_of-no_break : (n : ℕ) → no_break (char_of n) ≡ true
char_of-no_break n = ground arith

keep-padded : (s : Str) → keep no_break (encode s ++ padding s) ≡ encode s ++ padding s
unfolding padding
keep-padded [] = refl
keep-padded (a ∷ []) = grind (arith, char_of-no_break)
keep-padded (a ∷ b ∷ []) = grind (arith, char_of-no_break)
keep-padded (a ∷ b ∷ c ∷ s) = grind (arith, char_of-no_break, keep-padded s)

padded-four :
    (w x y z : ℕ) (s p : Str)
    → padded s ≡ ok (s ++ p)
    → padded (w ∷ (x ∷ (y ∷ (z ∷ s)))) ≡ ok (w ∷ (x ∷ (y ∷ (z ∷ (s ++ p)))))
unfolding padded
padded-four w x y z s p h =
    let m : suc (suc (suc (suc (length s)))) % 4 ≡ length s % 4 = omega arith in
    ground (arith, m, h)

padded-encode : (s : Str) → padded (encode s) ≡ ok (encode s ++ padding s)
unfolding padded padding
padded-encode [] = refl
padded-encode (a ∷ []) = refl
padded-encode (a ∷ b ∷ []) = refl
padded-encode (a ∷ b ∷ c ∷ s) = padded-four _ _ _ _ (encode s) (padding s) (padded-encode s)

full_block-chars :
    (w x y z : ℕ)
    → w < 64
    → x < 64
    → y < 64
    → z < 64
    → full_block (char_of w) (char_of x) (char_of y) (char_of z) ≡ ok (block4 w x y z)
unfolding full_block
full_block-chars w x y z hw hx hy hz =
    rw (value_of-char_of w hw, value_of-char_of x hx, value_of-char_of y hy, value_of-char_of z hz)
      refl

block4-bytes :
    (a b c : ℕ)
    → a < 256
    → b < 256
    → c < 256
    → block4 (a / 4) (a % 4 * 16 + b / 16) (b % 16 * 4 + c / 64) (c % 64) ≡ a ∷ (b ∷ (c ∷ []))
block4-bytes a b c ha hb hc =
    let first : a / 4 * 4 + (a % 4 * 16 + b / 16) / 16 ≡ a = omega arith in
    let second : (a % 4 * 16 + b / 16) % 16 * 16 + (b % 16 * 4 + c / 64) / 4 ≡ b = omega arith in
    let third : (b % 16 * 4 + c / 64) % 4 * 64 + c % 64 ≡ c = omega arith in
    rw (first, second, third) refl

decode_blocks-full :
    (w x y z : ℕ) (s block rest : Str)
    → s ≢ []
    → full_block w x y z ≡ ok block
    → decode_blocks s ≡ ok rest
    → decode_blocks (w ∷ (x ∷ (y ∷ (z ∷ s)))) ≡ ok (block ++ rest)
unfolding decode_blocks
decode_blocks-full w x y z [] block rest filled e e' = absurd (filled refl)
decode_blocks-full w x y z (c ∷ s) block rest filled e e' = rw (e, e') refl

encode-filled : (d : ℕ) (s : Str) → (encode (d ∷ s) ++ padding (d ∷ s)) ≢ []
encode-filled d [] = λ e. cc
encode-filled d (e ∷ []) = λ e. cc
encode-filled d (e ∷ f ∷ s) = λ e. cc

last_block-chars :
    (w x y z : ℕ)
    → w < 64
    → x < 64
    → y < 64
    → z < 64
    → last_block (char_of w) (char_of x) (char_of y) (char_of z) ≡ ok (block4 w x y z)
unfolding last_block
last_block-chars w x y z hw hx hy hz =
    rw
      (
        value_of-char_of w hw,
        value_of-char_of x hx,
        char_of-ne-pad y,
        value_of-char_of y hy,
        char_of-ne-pad z,
        value_of-char_of z hz,
      )
      refl

decode_blocks-encode : (s : Str) → Bytes s → decode_blocks (encode s ++ padding s) ≡ ok s
unfolding decode_blocks last_block padding
decode_blocks-encode [] _ = refl
decode_blocks-encode (a ∷ []) (ha, _) =
    let w = value_of-char_of (a / 4) (omega arith) in
    let x = value_of-char_of (a % 4 * 16) (omega arith) in
    let first : a / 4 * 4 + a % 4 * 16 / 16 ≡ a = omega arith in ground (arith, w, x, first)
decode_blocks-encode (a ∷ b ∷ []) (ha, (hb, _)) =
    let w = value_of-char_of (a / 4) (omega arith) in
    let x = value_of-char_of (a % 4 * 16 + b / 16) (omega arith) in
    let y = value_of-char_of (b % 16 * 4) (omega arith) in
    let first : a / 4 * 4 + (a % 4 * 16 + b / 16) / 16 ≡ a = omega arith in
    let second : (a % 4 * 16 + b / 16) % 16 * 16 + b % 16 * 4 / 4 ≡ b = omega arith in
    rw (w, x, y) (ground (arith, first, second, char_of-ne-pad (b % 16 * 4)))
decode_blocks-encode (a ∷ b ∷ c ∷ []) (ha, (hb, (hc, _))) =
    last_block-chars (a / 4) (a % 4 * 16 + b / 16) (b % 16 * 4 + c / 64) (c % 64) (omega arith)
      (omega arith) (omega arith) (omega arith)
    ∙ ap ok (block4-bytes a b c ha hb hc)
decode_blocks-encode (a ∷ b ∷ c ∷ d ∷ s) (ha, (hb, (hc, hs))) =
    let w : ℕ = a / 4 in
    let x : ℕ = a % 4 * 16 + b / 16 in
    let y : ℕ = b % 16 * 4 + c / 64 in
    let z : ℕ = c % 64 in
    let chars =
      full_block-chars w x y z (omega arith) (omega arith) (omega arith) (omega arith)
      ∙ ap ok (block4-bytes a b c ha hb hc) in
    decode_blocks-full (char_of w) (char_of x) (char_of y) (char_of z)
      (encode (d ∷ s) ++ padding (d ∷ s)) (a ∷ (b ∷ (c ∷ []))) (d ∷ s) (encode-filled d s) chars
      (decode_blocks-encode (d ∷ s) hs)

decode_string-encode : (s : Str) → Bytes s → decode_string (encode s ++ padding s) ≡ ok s
unfolding decode_string
decode_string-encode s h = rw (keep-padded s) (decode_blocks-encode s h)

jose_base64_url_decode-padded : (s : Str) → jose_base64_url_decode s ≡ (padded s >>= decode_string)
unfolding jose_base64_url_decode
jose_base64_url_decode-padded s = refl

-- Every text of bytes is decoded from its encoding.
pub jose_base64_url_decode-encode : (s : Str) → Bytes s → jose_base64_url_decode (encode s) ≡ ok s
jose_base64_url_decode-encode s h =
    jose_base64_url_decode-padded (encode s)
    ∙ ap (λ (r : Result Str). r >>= decode_string) (padded-encode s)
    ∙ decode_string-encode s h
