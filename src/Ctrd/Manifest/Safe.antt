-- ===== src/Ctrd/Manifest/Safe.antt =====
-- ctrd/image/image.go: when a pull of a manifest panics.
use d2p_migrator.Prelude.{
  ◌≡◌, ◌≢◌, refl, true, List, [], ◌∷◌, Str, inl, inr, arith, ◌==◌, ◌&&◌, Bool-cases,
}
use d2p_migrator.Prelude.Result.{Result, ok, err, panic, Error, Result-cases}
use d2p_migrator.Ctrd.Types.{Descriptor, Converter, new_converter}
use d2p_migrator.Ctrd.Converter.{media_schema1_manifest, state_of}
use d2p_migrator.Ctrd.Converter.Handle.{handle}
use d2p_migrator.Ctrd.Converter.Consistent.{handle-Consistent}
use d2p_migrator.Ctrd.Converter.Reads.{Legible, Forged, handle-panic}
use d2p_migrator.Ctrd.Converter.Safe.{Tame, convert-safe}
use d2p_migrator.Ctrd.Manifest.{
  RemoteContext, RemoteOpt, default_remote_context, apply_opts, children, fetch_handler,
  pull_schema1, pull_plain, pull_content, store_image, pull_leased, pull_manifest,
}
use d2p_migrator.World.{Host, Trace, ctrd_with_lease, resolver_resolve, resolver_fetcher}

abbrev pub Handler : Type 0
Handler = Descriptor → Converter → Trace → Result (List Descriptor) × Converter × Trace

-- The walk calls its handler with the descriptor that it is given. It ends with the handler's error, or behind a descriptor that has
-- no children, and does not panic by itself. (No error of a handler here is one that skips a descriptor.)
pub record Walking (host : Host) : Type 0 where
  pub leaf :
      (handler : Handler) (d : Descriptor) (c : Converter) (t : Trace)
      → (handler d c t).0 ≡ ok []
      → host.dispatch handler d c t ≡ (ok tt, (handler d c t).1, (handler d c t).2)
  pub stops :
      (handler : Handler) (d : Descriptor) (c : Converter) (t : Trace) (e : Error)
      → (handler d c t).0 ≡ err e
      → (host.dispatch handler d c t).0 ≡ err e
  pub safe :
      (handler : Handler)
      → ((d : Descriptor) (c : Converter) (t : Trace) → (handler d c t).0 ≢ panic)
      → (d : Descriptor) (c : Converter) (t : Trace) → (host.dispatch handler d c t).0 ≢ panic

-- The services that a pull asks return errors, and do not panic.
pub record Answering (host : Host) : Type 0 where
  pub lease_safe : (t : Trace) → host.ctrd_with_lease t ≢ panic
  pub resolve_safe : (t : Trace) → host.resolver_resolve t ≢ panic
  pub fetcher_safe : (t : Trace) → host.resolver_fetcher t ≢ panic
  pub fetch_content_safe : (t : Trace) → host.fetch_content t ≢ panic
  pub read_blob_safe : (t : Trace) → host.read_blob t ≢ panic
  pub create_safe : (t : Trace) → host.image_create t ≢ panic
  pub update_safe : (t : Trace) → host.image_update t ≢ panic
  pub decode_manifest_safe : (s : Str) → host.decode_manifest s ≢ panic
  pub decode_index_safe : (s : Str) → host.decode_index s ≢ panic
  pub parse_platform_safe : (s : Str) → host.parse_platform s ≢ panic

-- What a pull that has panicked has met: a manifest of schema 1 that was to be converted, with a forged signature.
abbrev pub Panicked : Host → RemoteContext → Descriptor → Trace → Type 0
Panicked host c d t =
    (d.media_type ≡ media_schema1_manifest) × (c.convert_schema1 ≡ true) × Forged host d t

module _ (host : Host) (walking : Walking host) (answering : Answering host)
    (legible : Legible host) (tame : Tame host) where
  fetch_handler-safe :
      (d : Descriptor) (c : Converter) (t : Trace) → (fetch_handler host d c t).0 ≢ panic
  unfolding fetch_handler children
  fetch_handler-safe d c t p = grind (
    arith, p, answering.fetch_content_safe, answering.read_blob_safe,
    answering.decode_manifest_safe, answering.decode_index_safe, answering.parse_platform_safe,
  )

  pull_plain-safe : (d : Descriptor) (t : Trace) → (pull_plain host d t).0 ≢ panic
  unfolding pull_plain
  pull_plain-safe d t p =
      ground (arith, p, walking.safe (fetch_handler host) fetch_handler-safe d new_converter t)

  -- A walk over a manifest of schema 1 that succeeds leaves what the conversion asks for.
  pull_schema1-panic :
      (d : Descriptor) (t : Trace)
      → d.media_type ≡ media_schema1_manifest
      → (pull_schema1 host d t).0 ≡ panic
      → Forged host d t
  unfolding pull_schema1 state_of
  pull_schema1-panic d t schema1 p = elim (Result-cases ((handle host d new_converter t).0)) [
    | inl (ds, e) ↦
        let (consistent, childless) =
          handle-Consistent host d new_converter t ds schema1 (λ blob. refl) e in
        let walked = walking.leaf (handle host) d new_converter t (rw childless at e) in
        absurd (
          convert-safe host tame (handle host d new_converter t).1 (handle host d new_converter t).2
            consistent (rw walked at p))
    | inr (inl (error, e)) ↦
        absurd (ground (arith, p, walking.stops (handle host) d new_converter t error e))
    | inr (inr e) ↦ handle-panic host legible d new_converter t e
  ]

  pull_content-panic :
      (c : RemoteContext) (d : Descriptor) (t : Trace)
      → (pull_content host c d t).0 ≡ panic
      → Panicked host c d t
  unfolding pull_content
  pull_content-panic c d t p =
      elim (Bool-cases (d.media_type == media_schema1_manifest && c.convert_schema1)) [
        | inl converts ↦
            let schema1 : d.media_type ≡ media_schema1_manifest = ground (arith, converts) in
            (schema1, ground (arith, converts), pull_schema1-panic d t schema1 (rw converts at p))
        | inr keeps ↦ absurd (pull_plain-safe d t (rw keeps at p))
      ]

  store_image-safe :
      (name : Str) (d : Descriptor) (labels : List (Str × Str)) (t : Trace)
      → (store_image host name d labels t).0 ≢ panic
  unfolding store_image
  store_image-safe name d labels t p =
      grind (arith, p, answering.create_safe, answering.update_safe)

  pull_leased-panic :
      (ref : Str) (c : RemoteContext) (t : Trace)
      → (pull_leased host ref c t).0 ≡ panic
      → (name : Str) × (d : Descriptor) × (host.resolver_resolve (resolver_resolve ref ∷ t)
          ≡ ok (name, d))
        × Panicked host c d (resolver_fetcher name ∷ (resolver_resolve ref ∷ t))
  unfolding pull_leased
  pull_leased-panic ref c t p =
      let asked : Trace = resolver_resolve ref ∷ t in
      elim (Result-cases (host.resolver_resolve asked)) [
        | inl ((name, d), e) ↦
            let u : Trace = resolver_fetcher name ∷ asked in
            elim (Result-cases (host.resolver_fetcher u)) [
              | inl (_, e') ↦ elim (Result-cases ((pull_content host c d u).0)) [
                | inl (pulled, e'') ↦
                    let stored =
                      store_image-safe name pulled c.labels (pull_content host c d u).1 in
                    absurd (ground (arith, p, e, e', e'', stored))
                | inr (inl (_, e'')) ↦ absurd (ground (arith, p, e, e', e''))
                | inr (inr e'') ↦ (name, d, e, pull_content-panic c d u e'')
              ]
              | inr (inl (_, e')) ↦ absurd (ground (arith, p, e, e'))
              | inr (inr e') ↦ absurd (answering.fetcher_safe u e')
            ]
        | inr (inl (_, e)) ↦ absurd (ground (arith, p, e))
        | inr (inr e) ↦ absurd (answering.resolve_safe asked e)
      ]

  -- A pull of a manifest panics in one way only: it converts a manifest of schema 1 which the registry has sent with a
  -- first signature that states a negative length. A manifest that is walked without an error
  -- is one that its conversion can read, and no other pull panics. The options, the services and the decoders are assumed
  -- not to panic, and the walk over descriptors to run its handler.
  pub pull_manifest-panic :
      (ref : Str) (opts : List RemoteOpt) (t : Trace)
      → apply_opts opts default_remote_context ≢ panic
      → (pull_manifest host ref opts t).0 ≡ panic
      → (c : RemoteContext) × (name : Str) × (d : Descriptor) × (apply_opts opts
            default_remote_context
          ≡ ok c)
        × (host.resolver_resolve (resolver_resolve ref ∷ (ctrd_with_lease ∷ t)) ≡ ok (name, d))
        × Panicked host c d (resolver_fetcher name ∷ (resolver_resolve ref ∷ (ctrd_with_lease ∷ t)))
  unfolding pull_manifest
  pull_manifest-panic ref opts t h p =
      let leased : Trace = ctrd_with_lease ∷ t in
      elim (Result-cases (apply_opts opts default_remote_context)) [
        | inl (c, e) ↦ elim (Result-cases (host.ctrd_with_lease leased)) [
          | inl (_, e') ↦
              let (name, d, resolved, panicked) = pull_leased-panic ref c leased (ended c e e') in
              (c, name, d, e, resolved, panicked)
          | inr (inl (_, e')) ↦ absurd (ground (arith, p, e, e'))
          | inr (inr e') ↦ absurd (answering.lease_safe leased e')
        ]
        | inr (inl (_, e)) ↦ absurd (ground (arith, p, e))
        | inr (inr e) ↦ absurd (h e)
      ]
    where
      ended :
          (c : RemoteContext)
          → apply_opts opts default_remote_context ≡ ok c
          → host.ctrd_with_lease (ctrd_with_lease ∷ t) ≡ ok tt
          → (pull_leased host ref c (ctrd_with_lease ∷ t)).0 ≡ panic
      ended c e e' = elim (Result-cases (pull_leased host ref c (ctrd_with_lease ∷ t)).0) [
        | inl (_, e'') ↦ absurd (ground (arith, p, e, e', e''))
        | inr (inl (_, e'')) ↦ absurd (ground (arith, p, e, e', e''))
        | inr (inr e'') ↦ e''
      ]
