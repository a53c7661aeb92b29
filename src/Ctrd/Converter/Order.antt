-- ===== src/Ctrd/Converter/Order.antt =====
-- ctrd/image/converter.go: the history of the converted image, and the ids of its layers.
use d2p_migrator.Prelude.{
  ℕ, zero, suc, ◌+◌, ◌<◌, ◌≡◌, refl, sym, ap, ◌∙◌, Bool, false, not, Option, none, some,
  Option-cases, str, join, List, [], ◌∷◌, Str, inl, inr, arith, length, Bool-cases, map, keep,
}
use mathlib.Core.List.{reverse, reverse_aux}
use native.Mathlib.Nat.{zero-add}
use d2p_migrator.Prelude.Dict.{Dict, lookup}
use d2p_migrator.Prelude.Result.{ok}
use d2p_migrator.Ctrd.Types.{FsLayer, History, V1History, OciHistory, BlobState, Converter}
use d2p_migrator.Ctrd.Converter.{
  converted, state_of, history_loop, history_of, schema1_manifest_history,
}
use d2p_migrator.Ctrd.Converter.Consistent.{Consistent}
use d2p_migrator.Ctrd.Converter.Grown.{Unidentified}
use d2p_migrator.World.{Host}

-- What is noted of a blob. One that is not noted counts as full and has no id.
abbrev pub noted : Option BlobState → BlobState
noted none = record { diff_id = []; empty = false }
noted (some s) = s

-- What is known of the layers, the first of them first.
abbrev pub states : Dict BlobState → List FsLayer → List BlobState
states blobs layers = map (λ (l : FsLayer). noted (lookup l.blob_sum blobs)) layers

-- What the new image says of a layer, by the layer's history and by whether it is empty.
abbrev pub entry : V1History → Bool → OciHistory
entry h empty = record {
  author = h.author;
  comment = h.comment;
  created = h.created;
  created_by = join (str " ") h.cmd;
  empty_layer = empty;
}

-- Each history beside the state of its layer.
abbrev pub converted_all : List V1History → List BlobState → List OciHistory
converted_all (h ∷ hs) (s ∷ ss) = entry h s.empty ∷ converted_all hs ss
converted_all _ _ = []

state_of-noted :
    (blob : Str) (blobs : Dict BlobState) → state_of blob blobs ≡ noted (lookup blob blobs)
unfolding state_of
state_of-noted blob blobs = elim (Option-cases (lookup blob blobs)) [
  | inl e ↦ ground (arith, e)
  | inr (s, e) ↦ ground (arith, e)
]

converted-entry : (h : V1History) (s : BlobState) → converted h s ≡ entry h s.empty
unfolding converted
converted-entry h s = refl

abbrev pub is_full : BlobState → Bool
is_full s = not s.empty

abbrev pub full_ids : List BlobState → List Str
full_ids ss = map (λ (s : BlobState). s.diff_id) (keep is_full ss)

-- So many empty ids.
abbrev pub blanks : ℕ → List Str
blanks zero = []
blanks (suc n) = [] ∷ blanks n

reverse_aux-blanks : (n m : ℕ) → reverse_aux (blanks n) (blanks m) ≡ blanks (n + m)
reverse_aux-blanks zero m = rw zero-add refl
reverse_aux-blanks (suc n) m = reverse_aux-blanks n (suc m) ∙ ap blanks (omega arith)

full_ids-blanks :
    (blobs : Dict BlobState) (layers : List FsLayer)
    → Unidentified blobs
    → full_ids (states blobs layers) ≡ blanks (length (keep is_full (states blobs layers)))
full_ids-blanks blobs [] u = refl
full_ids-blanks blobs (l ∷ ls) u =
    let blank : (noted (lookup l.blob_sum blobs)).diff_id ≡ [] =
      ap (λ (s : BlobState). s.diff_id) (sym (state_of-noted l.blob_sum blobs)) ∙ u l.blob_sum in
    ground (arith, full_ids-blanks blobs ls u, blank)

module _ (host : Host) where
  -- The texts of the histories are decoded to `hs`.
  abbrev pub Decoded : List History → List V1History → Type 0
  Decoded [] [] = Unit
  Decoded (text ∷ texts) (h ∷ hs) =
      (host.decode_v1_history text.v1_compatibility ≡ ok h) × Decoded texts hs
  Decoded _ _ = ⊥

  history_loop-reverse :
      (blobs : Dict BlobState) (layers : List FsLayer) (texts : List History) (hs : List V1History)
      (history : List OciHistory) (ids : List Str)
      → length layers ≡ length texts
      → Decoded texts hs
      → history_loop host blobs layers texts history ids
        ≡ ok (
          reverse_aux (converted_all hs (states blobs layers)) history,
          reverse_aux (full_ids (states blobs layers)) ids,
        )
  unfolding history_loop
  history_loop-reverse blobs [] [] [] history ids e d = refl
  history_loop-reverse blobs (l ∷ ls) (text ∷ texts) (h ∷ hs) history ids e (here, rest) =
      let s : BlobState = noted (lookup l.blob_sum blobs) in
      let known = state_of-noted l.blob_sum blobs in
      let next = λ (ids' : List Str).
        history_loop-reverse blobs ls texts hs (entry h s.empty ∷ history) ids' (omega arith)
          rest in
      let new = converted-entry h s in
      elim (Bool-cases s.empty) [
        | inl empty ↦ ground (arith, here, known, new, empty, next ids)
        | inr full ↦ ground (arith, here, known, new, full, next (s.diff_id ∷ ids))
      ]
  history_loop-reverse blobs ls [] (h ∷ hs) history ids e d = absurd d
  history_loop-reverse blobs ls (text ∷ texts) [] history ids e d = absurd d
  history_loop-reverse blobs [] (text ∷ texts) hs history ids e d = absurd (omega arith)
  history_loop-reverse blobs (l ∷ ls) [] hs history ids e d = absurd (omega arith)

  -- A consistent converter that has at least one history, and whose histories can be decoded, has a new history, with one
  -- entry for each layer, the last first: the author, comment, time and command of its history, and whether
  -- the layer is empty. But each layer that is not empty gets an empty id, as no id of a blob's content is ever noted.
  pub schema1_manifest_history-reverse :
      (c : Converter) (k : Consistent c) (hs : List V1History)
      → 0 < length k.manifest.history
      → Decoded k.manifest.history hs
      → schema1_manifest_history host c
        ≡ ok (
          reverse (converted_all hs (states c.blob_map k.manifest.fs_layers)),
          blanks (length (keep is_full (states c.blob_map k.manifest.fs_layers))),
        )
  unfolding schema1_manifest_history history_of reverse
  schema1_manifest_history-reverse c k hs some_history d =
      let full : full_ids (states c.blob_map k.manifest.fs_layers)
          ≡ blanks (length (keep is_full (states c.blob_map k.manifest.fs_layers))) =
        full_ids-blanks c.blob_map k.manifest.fs_layers k.unidentified in
      let looped =
        history_loop-reverse c.blob_map k.manifest.fs_layers k.manifest.history hs [] [] k.paired
          d in
      let n : ℕ = length (keep is_full (states c.blob_map k.manifest.fs_layers)) in
      ground (arith, k.pulled, looped, full, some_history, reverse_aux-blanks n 0)
