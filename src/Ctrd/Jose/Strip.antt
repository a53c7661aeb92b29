-- ===== src/Ctrd/Jose/Strip.antt =====
-- ctrd/image/converter.go: how the signature is taken off a manifest.
use d2p_migrator.Prelude.{
  ℕ, ◌≤◌, ◌≡◌, ◌≢◌, refl, false, List, [], ◌∷◌, ◌++◌, Str, str, inl, inr, arith, length, take, keep,
  Bool-cases,
}
use d2p_migrator.Prelude.Int.{ℤ, pos, negsuc}
use d2p_migrator.Prelude.Result.{
  Result, ok, err, panic, ◌>>=◌, wrap, wrap-ok, wrap-safe, bind-safe, bind-elim,
}
use d2p_migrator.Ctrd.Types.{ProtectedBlock}
use d2p_migrator.Ctrd.Jose.{
  value_of, last_block, full_block, decode_blocks, decode_string, padded, jose_base64_url_decode,
  slice_to, exceeds, first_signature, strip, strip_signature, no_break,
}
use d2p_migrator.World.{Host}

value_of-safe : (c : ℕ) → value_of c ≢ panic
unfolding value_of
value_of-safe c = λ p. ground (arith, p)

last_block-safe : (a b c d : ℕ) → last_block a b c d ≢ panic
unfolding last_block
last_block-safe a b c d =
    λ p. ground (arith, p, value_of-safe a, value_of-safe b, value_of-safe c, value_of-safe d)

full_block-safe : (a b c d : ℕ) → full_block a b c d ≢ panic
unfolding full_block
full_block-safe a b c d =
    λ p. ground (arith, p, value_of-safe a, value_of-safe b, value_of-safe c, value_of-safe d)

decode_blocks-safe : (s : Str) → decode_blocks s ≢ panic
unfolding decode_blocks
decode_blocks-safe [] = λ p. cc
decode_blocks-safe (a ∷ []) = λ p. cc
decode_blocks-safe (a ∷ b ∷ []) = λ p. cc
decode_blocks-safe (a ∷ b ∷ c ∷ []) = λ p. cc
decode_blocks-safe (a ∷ b ∷ c ∷ d ∷ []) = last_block-safe a b c d
decode_blocks-safe (a ∷ b ∷ c ∷ d ∷ e ∷ s) =
    λ p. ground (arith, p, full_block-safe a b c d, decode_blocks-safe (e ∷ s))

decode_string-safe : (s : Str) → decode_string s ≢ panic
unfolding decode_string
decode_string-safe s = decode_blocks-safe (keep no_break s)

padded-safe : (s : Str) → padded s ≢ panic
unfolding padded
padded-safe s = λ p. ground (arith, p)

jose-safe : (s : Str) → jose_base64_url_decode s ≢ panic
unfolding jose_base64_url_decode
jose-safe s = bind-safe (padded s) decode_string (padded-safe s) (λ a _. decode_string-safe a)

within-le : (n : ℕ) (b : Str) → exceeds (pos n) b ≡ false → n ≤ length b
within-le n b h = ground (arith, h)

module _ (host : Host) where
  -- What the first signature of a manifest says of its text, and the tail that it has kept.
  pub record Signed (b : Str) (block : ProtectedBlock) (tail : Str) : Type 0 where
    pub first : Str
    pub rest : List Str
    pub protected : Str
    pub signatures : host.decode_signatures b ≡ ok (first ∷ rest)
    pub unpacked : jose_base64_url_decode first ≡ ok protected
    pub decoded : host.decode_protected protected ≡ ok block
    pub ends : jose_base64_url_decode block.tail ≡ ok tail

  -- A text is cut where its first signature says, which is not behind its end, and the signed tail follows.
  -- A run that panics has met a negative length.
  abbrev pub Outcome : Str → Result Str → Type 0
  Outcome b (ok out) =
      (block : ProtectedBlock) × (tail : Str) × Signed b block tail
      × (n : ℕ) × (block.length ≡ pos n)
      × (n ≤ length b)
      × (out ≡ take n b ++ tail)
  Outcome b (err e) = Unit
  Outcome b panic =
      (block : ProtectedBlock) × (tail : Str) × Signed b block tail
      × (n : ℕ) × (block.length ≡ negsuc n)

  cut :
      (b tail : Str) (block : ProtectedBlock)
      → Signed b block tail
      → (z : ℤ) → block.length ≡ z
      → exceeds z b ≡ false
      → Outcome b (slice_to z b >>= (λ body. ok (body ++ tail)))
  unfolding slice_to
  cut b tail block signed (pos n) e within = (block, tail, signed, n, e, within-le n b within, refl)
  cut b tail block signed (negsuc n) e within = (block, tail, signed, n, e)

  strip-Outcome :
      (b protected first : Str) (rest : List Str) (block : ProtectedBlock)
      → host.decode_signatures b ≡ ok (first ∷ rest)
      → jose_base64_url_decode first ≡ ok protected
      → host.decode_protected protected ≡ ok block
      → Outcome b (strip host b block)
  unfolding strip
  strip-Outcome b protected first rest block signatures unpacked decoded =
      elim (Bool-cases (exceeds block.length b)) [
        | inl above ↦ rw above tt
        | inr within ↦ rw within (
            bind-elim (Outcome b) (wrap _ (jose_base64_url_decode block.tail)) _
              (wrap-safe _ _ (jose-safe block.tail)) (λ e. tt)
              (λ tail e.
                cut b tail block
                  (record {
                    first = first;
                    rest = rest;
                    protected = protected;
                    signatures = signatures;
                    unpacked = unpacked;
                    decoded = decoded;
                    ends = wrap-ok _ _ tail e;
                  })
                  block.length refl within))
      ]

  signed_strip : (b : Str) → List Str → Result Str
  unfolding first_signature
  signed_strip b signatures = do
    first ← first_signature signatures
    protected ← wrap (str "could not decode " ++ (first ++ str ": ")) (jose_base64_url_decode first)
    block ← host.decode_protected protected
    strip host b block

  signed_strip-Outcome :
      ((text : Str) → host.decode_protected text ≢ panic)
      → (b : Str) (signatures : List Str) → host.decode_signatures b ≡ ok signatures
      → Outcome b (signed_strip b signatures)
  unfolding signed_strip first_signature
  signed_strip-Outcome safe b [] signatures = tt
  signed_strip-Outcome safe b (first ∷ rest) signatures =
      bind-elim (Outcome b) (wrap _ (jose_base64_url_decode first)) _
        (wrap-safe _ _ (jose-safe first)) (λ e. tt)
        (λ protected unpacked.
          bind-elim (Outcome b) (host.decode_protected protected) _ (safe protected) (λ e. tt)
            (λ block decoded.
              strip-Outcome b protected first rest block signatures (wrap-ok _ _ protected unpacked)
                decoded))

  -- The signature is taken off a text in one of three ways. A text that is returned is the given one, cut where its first signature says
  -- and not behind its end, and the tail that the signature has kept. An error says nothing. A panic
  -- comes from a signature whose length is negative, and from nothing else, where decoding the signatures and their
  -- blocks does not panic.
  pub strip_signature-Outcome :
      ((text : Str) → host.decode_signatures text ≢ panic)
      → ((text : Str) → host.decode_protected text ≢ panic)
      → (b : Str) → Outcome b (strip_signature host b)
  unfolding strip_signature signed_strip
  strip_signature-Outcome lists blocks b =
      bind-elim (Outcome b) (host.decode_signatures b) (signed_strip b) (lists b) (λ e. tt)
        (signed_strip-Outcome blocks b)
