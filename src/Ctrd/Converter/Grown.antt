-- ===== src/Ctrd/Converter/Grown.antt =====
-- ctrd/image/converter.go: what the loop of `Handle` over the layers keeps and adds.
use d2p_migrator.Prelude.{
  ◌≡◌, refl, Bool, true, List, [], ◌∷◌, Str, ◌==◌, ◌⊎◌, inl, inr, if◌then◌else◌, arith, Bool-cases,
}
use d2p_migrator.Prelude.Dict.{Dict, has, insert, has-insert, lookup-insert}
use d2p_migrator.Prelude.Result.{ok, Result-cases}
use d2p_migrator.Ctrd.Types.{FsLayer, History, BlobState, Converter}
use d2p_migrator.Ctrd.Converter.{is_empty_layer, state_of, rest_of}
use d2p_migrator.Ctrd.Converter.Handle.{note_blob, note_blobs}
use d2p_migrator.World.{Host, Trace}
use d2p_migrator.World.Exec.{bind-ok}

-- Every blob of the layers is noted.
abbrev pub Noted : List FsLayer → Dict BlobState → Type 0
Noted [] blobs = Unit
Noted (l ∷ ls) blobs = (has l.blob_sum blobs ≡ true) × Noted ls blobs

-- What is noted of a blob never has the id of its content.
abbrev pub Unidentified : Dict BlobState → Type 0
Unidentified blobs = (blob : Str) → (state_of blob blobs).diff_id ≡ []

Noted-more :
    (ls : List FsLayer) (blobs more : Dict BlobState)
    → ((k : Str) → has k blobs ≡ true → has k more ≡ true)
    → Noted ls blobs
    → Noted ls more
Noted-more [] blobs more grows _ = tt
Noted-more (l ∷ ls) blobs more grows (here, rest) =
    (grows l.blob_sum here, Noted-more ls blobs more grows rest)

state_of-insert :
    (written blob : Str) (s : BlobState) (blobs : Dict BlobState)
    → state_of blob (insert written s blobs) ≡ (if written == blob then s else state_of blob blobs)
unfolding state_of
state_of-insert written blob s blobs = ground (arith, lookup-insert written blob s blobs)

-- What the loop over the layers keeps and adds.
pub record Grown (layers : List FsLayer) (before after : Converter) : Type 0 where
  pub same_manifest : after.pulled_manifest ≡ before.pulled_manifest
  pub grows : (k : Str) → has k before.blob_map ≡ true → has k after.blob_map ≡ true
  pub all_noted : Noted layers after.blob_map
  pub still_unidentified : Unidentified before.blob_map → Unidentified after.blob_map

-- The converter with one more blob.
abbrev with_blob : FsLayer → Bool → Converter → Converter
with_blob l empty c = record c {
  blob_map = insert l.blob_sum (record { diff_id = []; empty = empty }) c.blob_map;
}

Grown-same : (l : FsLayer) (c : Converter) → has l.blob_sum c.blob_map ≡ true → Grown (l ∷ []) c c
Grown-same l c known = record {
  same_manifest = refl;
  grows = λ k h. h;
  all_noted = (known, tt);
  still_unidentified = λ u. u;
}

Grown-with_blob :
    (l : FsLayer) (empty : Bool) (c : Converter) → Grown (l ∷ []) c (with_blob l empty c)
Grown-with_blob l empty c =
    let s : BlobState = record { diff_id = []; empty = empty } in
    record {
      same_manifest = refl;
      grows = λ k h. ground (arith, has-insert l.blob_sum k s c.blob_map, h);
      all_noted = (ground (arith, has-insert l.blob_sum l.blob_sum s c.blob_map), tt);
      still_unidentified =
          λ u blob. ground (arith, state_of-insert l.blob_sum blob s c.blob_map, u blob);
    }

Grown-step :
    (l : FsLayer) (ls : List FsLayer) (c c' c'' : Converter)
    → Grown (l ∷ []) c c'
    → Grown ls c' c''
    → Grown (l ∷ ls) c c''
Grown-step l ls c c' c'' first rest = record {
  same_manifest = cc (first.same_manifest, rest.same_manifest);
  grows = λ k h. rest.grows k (first.grows k h);
  all_noted = (rest.grows l.blob_sum (first.all_noted.0), rest.all_noted);
  still_unidentified = λ u. rest.still_unidentified (first.still_unidentified u);
}

module _ (host : Host) where
  note_blob-cases :
      (l : FsLayer) (hs : List History) (c : Converter) (t : Trace)
      → (note_blob host l hs c t).0 ≡ ok tt
      → ((has l.blob_sum c.blob_map ≡ true) × ((note_blob host l hs c t).1 ≡ c))
        ⊎ ((empty : Bool) × ((note_blob host l hs c t).1 ≡ with_blob l empty c))
  unfolding note_blob
  note_blob-cases l [] c t h = elim (Bool-cases (has l.blob_sum c.blob_map)) [
    | inl known ↦ inl (known, rw known refl)
    | inr new ↦ absurd (ground (arith, new, h))
  ]
  note_blob-cases l (text ∷ hs) c t h = elim (Bool-cases (has l.blob_sum c.blob_map)) [
    | inl known ↦ inl (known, rw known refl)
    | inr new ↦ elim (Result-cases (is_empty_layer host text.v1_compatibility)) [
      | inl (empty, e) ↦ inr (empty, rw (new, e) refl)
      | inr (inl (_, e)) ↦ absurd (ground (arith, new, h, e))
      | inr (inr e) ↦ absurd (ground (arith, new, h, e))
    ]
  ]

  note_blob-Grown :
      (l : FsLayer) (hs : List History) (c : Converter) (t : Trace)
      → (note_blob host l hs c t).0 ≡ ok tt
      → Grown (l ∷ []) c ((note_blob host l hs c t).1)
  note_blob-Grown l hs c t h = elim (note_blob-cases l hs c t h) [
    | inl (known, e) ↦ rw e (Grown-same l c known)
    | inr (empty, e) ↦ rw e (Grown-with_blob l empty c)
  ]

  pub note_blobs-Grown :
      (ls : List FsLayer) (hs : List History) (c : Converter) (t : Trace)
      → (note_blobs host ls hs c t).0 ≡ ok tt
      → Grown ls c ((note_blobs host ls hs c t).1)
  unfolding note_blobs
  note_blobs-Grown [] hs c t h = record {
    same_manifest = refl;
    grows = λ k h. h;
    all_noted = tt;
    still_unidentified = λ u. u;
  }
  note_blobs-Grown (l ∷ ls) hs c t h =
      let (_, here, later, e) =
        bind-ok (note_blob host l hs) (λ _. note_blobs host ls (rest_of hs)) c t tt h in
      let (_, c', t') = note_blob host l hs c t in
      let rest : Grown ls c' ((note_blobs host ls (rest_of hs) c' t').1) =
        note_blobs-Grown ls (rest_of hs) c' t' later in
      rw e (Grown-step l ls c c' _ (note_blob-Grown l hs c t here) rest)
