-- ===== src/Ctrd/Manifest/Quiet.antt =====
-- ctrd/image/image.go and ctrd/image/converter.go: what a pull of a manifest asks for, beside its lease.
use d2p_migrator.Prelude.{◌≡◌, refl, Bool, true, false, List, [], ◌∷◌, Str, arith}
use d2p_migrator.Prelude.Result.{Result}
use d2p_migrator.Ctrd.Types.{new_converter, Descriptor, FsLayer, History, Converter}
use d2p_migrator.Ctrd.Converter.Handle.{
  fetch_manifest, note_blob, note_blobs, note_manifest, handle,
}
use d2p_migrator.Ctrd.Converter.Convert.{write_blobs, convert}
use d2p_migrator.Ctrd.Converter.{rest_of}
use d2p_migrator.Ctrd.Manifest.{
  RemoteContext, children, fetch_handler, pull_schema1, pull_plain, pull_content, store_image,
  pull_leased,
}
use d2p_migrator.World.{
  Host, Trace, Request, resolver_resolve, resolver_fetcher, fetch, read_blob, fetch_content,
  write_blob, image_create, image_update,
}
use d2p_migrator.World.Calls.{number_of}

-- The requests to the registry, the content store and the image service.
abbrev pub is_image : Request → Bool
is_image (resolver_resolve _) = true
is_image (resolver_fetcher _) = true
is_image (fetch _) = true
is_image (read_blob _) = true
is_image (fetch_content _) = true
is_image (write_blob _ _ _ _ _) = true
is_image (image_create _ _ _) = true
is_image (image_update _ _ _) = true
is_image _ = false

-- A walk makes no request of a kind unless its handler does.
abbrev pub Walks : Host → (Request → Bool) → Type 0
Walks host p =
    (handler : Descriptor → Converter → Trace → Result (List Descriptor) × Converter × Trace)
    → ((d : Descriptor) (c : Converter) (t : Trace) → number_of p (handler d c t).2 ≡ number_of p t)
    → (d : Descriptor) (c : Converter) (t : Trace)
    → number_of p (host.dispatch handler d c t).2 ≡ number_of p t

module _ (host : Host) (p : Request → Bool)
    (quiet : (r : Request) → is_image r ≡ true → p r ≡ false) where
  number_of-note_blob :
      (l : FsLayer) (hs : List History) (c : Converter) (t : Trace)
      → number_of p ((note_blob host l hs c t).2) ≡ number_of p t
  unfolding note_blob number_of
  number_of-note_blob l hs c t = grind (arith, quiet)

  number_of-note_blobs :
      (ls : List FsLayer) (hs : List History) (c : Converter) (t : Trace)
      → number_of p ((note_blobs host ls hs c t).2) ≡ number_of p t
  unfolding note_blobs number_of
  number_of-note_blobs [] hs c t = refl
  number_of-note_blobs (l ∷ ls) hs c t =
      let (r, c', t') = note_blob host l hs c t in
      grind (arith, number_of-note_blob l hs c t, number_of-note_blobs ls (rest_of hs) c' t')

  number_of-fetch_manifest :
      (d : Descriptor) (c : Converter) (t : Trace)
      → number_of p ((fetch_manifest host d c t).2) ≡ number_of p t
  unfolding fetch_manifest number_of
  number_of-fetch_manifest d c t = grind (arith, quiet)

  number_of-handle :
      (d : Descriptor) (c : Converter) (t : Trace)
      → number_of p ((handle host d c t).2) ≡ number_of p t
  unfolding handle note_manifest
  number_of-handle d c t = grind (arith, number_of-fetch_manifest, number_of-note_blobs)

  number_of-fetch_handler :
      (d : Descriptor) (c : Converter) (t : Trace)
      → number_of p ((fetch_handler host d c t).2) ≡ number_of p t
  unfolding fetch_handler children number_of
  number_of-fetch_handler d c t = grind (arith, quiet)

  number_of-convert :
      (c : Converter) (t : Trace) → number_of p ((convert host c t).1) ≡ number_of p t
  unfolding convert write_blobs number_of
  number_of-convert c t = grind (arith, quiet)

  number_of-store_image :
      (name : Str) (d : Descriptor) (labels : List (Str × Str)) (t : Trace)
      → number_of p ((store_image host name d labels t).1) ≡ number_of p t
  unfolding store_image number_of
  number_of-store_image name d labels t = grind (arith, quiet)

module _ (host : Host) (p : Request → Bool)
    (quiet : (r : Request) → is_image r ≡ true → p r ≡ false) (keeps : Walks host p) where
  number_of-pull_schema1 :
      (d : Descriptor) (t : Trace) → number_of p ((pull_schema1 host d t).1) ≡ number_of p t
  unfolding pull_schema1
  number_of-pull_schema1 d t = grind (
    arith,
    keeps (handle host) (number_of-handle host p quiet) d new_converter t,
    number_of-convert host p quiet,
  )

  number_of-pull_plain :
      (d : Descriptor) (t : Trace) → number_of p ((pull_plain host d t).1) ≡ number_of p t
  unfolding pull_plain
  number_of-pull_plain d t =
      grind
        (arith, keeps (fetch_handler host) (number_of-fetch_handler host p quiet) d new_converter t)

  pub number_of-pull_leased :
      (ref : Str) (c : RemoteContext) (t : Trace)
      → number_of p ((pull_leased host ref c t).1) ≡ number_of p t
  unfolding pull_leased pull_content number_of
  number_of-pull_leased ref c t = grind (
    arith,
    quiet,
    number_of-pull_schema1,
    number_of-pull_plain,
    number_of-store_image host p quiet,
  )
