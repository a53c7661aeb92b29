-- ===== src/Ctrd/Jose.antt =====
-- ctrd/image/converter.go: the signature around a manifest of schema 1. Texts are bytes here.
pub mod RoundTrip
pub mod Strip
use d2p_migrator.Prelude.{
  ℕ, zero, suc, ◌+◌, ◌-◌, ◌*◌, ◌/◌, ◌%◌, Bool, true, false, ◌&&◌, ◌||◌, not, List, [], ◌∷◌, ◌++◌,
  Option, none, some, Str, str, ◌==◌, eqb, ltb, leb, if◌then◌else◌, length, take, keep,
}
use d2p_migrator.Prelude.Int.{ℤ, pos, negsuc}
use d2p_migrator.Prelude.Result.{Result, ok, err, panic, ◌>>=◌, errorf, wrap}
use d2p_migrator.Ctrd.Types.{ProtectedBlock}
use d2p_migrator.World.{Host}

-- `CorruptInputError`, without the position that its text names.
abbrev pub corrupt {ℓ} : {A : Type ℓ} → Result A
corrupt = errorf (str "illegal base64 data")

-- The value of a character of the URL alphabet of base 64.
unfoldable pub value_of : ℕ → Result ℕ
value_of c =
    if leb b'A' c && leb c b'Z'
    then ok (c - b'A')
    else if leb b'a' c && leb c b'z'
    then ok (c - b'a' + 26)
    else if leb b'0' c && leb c b'9'
    then ok (c - b'0' + 52)
    else if eqb c b'-'
    then ok 62
    else if eqb c b'_'
    then ok 63
    else corrupt

abbrev pub pad : ℕ
pad = b'='

-- The bytes of a block of two, three or four characters. What is left over of the bits is not tested.
abbrev pub block2 : ℕ → ℕ → Str
block2 a b = (a * 4 + b / 16) ∷ []

abbrev pub block3 : ℕ → ℕ → ℕ → Str
block3 a b c = (a * 4 + b / 16) ∷ ((b % 16 * 16 + c / 4) ∷ [])

abbrev pub block4 : ℕ → ℕ → ℕ → ℕ → Str
block4 a b c d = (a * 4 + b / 16) ∷ ((b % 16 * 16 + c / 4) ∷ ((c % 4 * 64 + d) ∷ []))

-- The last block, of which a part may be padding.
last_block : ℕ → ℕ → ℕ → ℕ → Result Str
unfolding value_of
last_block a b c d = do
  x ← value_of a
  y ← value_of b
  (if eqb c pad && eqb d pad then ok (block2 x y) else do
    z ← value_of c
    (if eqb d pad then ok (block3 x y z) else do w ← value_of d; ok (block4 x y z w)))

full_block : ℕ → ℕ → ℕ → ℕ → Result Str
unfolding value_of
full_block a b c d = do
  x ← value_of a
  y ← value_of b
  z ← value_of c
  w ← value_of d
  ok (block4 x y z w)

-- `base64.URLEncoding.DecodeString` without its line breaks: blocks of four characters, the last one padded.
unfoldable pub decode_blocks : Str → Result Str
unfolding last_block full_block
decode_blocks [] = ok []
decode_blocks (a ∷ b ∷ c ∷ d ∷ []) = last_block a b c d
decode_blocks (a ∷ b ∷ c ∷ d ∷ e ∷ s) = do
  block ← full_block a b c d
  rest ← decode_blocks (e ∷ s)
  ok (block ++ rest)
decode_blocks _ = corrupt

abbrev pub no_break : ℕ → Bool
no_break c = not (eqb c 10 || eqb c 13)

-- `base64.URLEncoding.DecodeString`. Line breaks are skipped.
unfoldable pub decode_string : Str → Result Str
unfolding decode_blocks
decode_string s = decode_blocks (keep no_break s)

-- The padding that the jose specification leaves out, by the length's remainder.
unfoldable pub padded : Str → Result Str
padded s =
    if eqb (length s % 4) 0
    then ok s
    else if eqb (length s % 4) 2
    then ok (s ++ (pad ∷ (pad ∷ [])))
    else if eqb (length s % 4) 3
    then ok (s ++ (pad ∷ []))
    else errorf (str "illegal base64url string")

-- `joseBase64UrlDecode`
unfoldable pub jose_base64_url_decode : Str → Result Str
unfolding padded decode_string
jose_base64_url_decode s = padded s >>= decode_string

-- `b[:n]`: a negative bound panics, and one above the length has been excluded.
unfoldable pub slice_to : ℤ → Str → Result Str
slice_to (pos n) b = ok (take n b)
slice_to (negsuc _) b = panic

-- `n > len(b)`
abbrev pub exceeds : ℤ → Str → Bool
exceeds (pos n) b = ltb (length b) n
exceeds (negsuc _) b = false

first_signature : List Str → Result Str
first_signature [] = errorf (str "no signatures")
first_signature (s ∷ _) = ok s

module _ (host : Host) where
  strip : Str → ProtectedBlock → Result Str
  unfolding jose_base64_url_decode slice_to
  strip b protected =
      let decoded = (do
        tail ← wrap (str "invalid tail base 64 value: ") (jose_base64_url_decode protected.tail)
        body ← slice_to protected.length b
        ok (body ++ tail)) in
      if exceeds protected.length b then errorf (str "invalid protected length block") else decoded

  -- `stripSignature`
  unfoldable pub strip_signature : Str → Result Str
  unfolding strip first_signature jose_base64_url_decode
  strip_signature b = do
    signatures ← host.decode_signatures b
    first ← first_signature signatures
    pb ← wrap (str "could not decode " ++ (first ++ str ": ")) (jose_base64_url_decode first)
    protected ← host.decode_protected pb
    strip b protected
