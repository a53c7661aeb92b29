-- ===== src/Ctrd/Manifest/Stored.antt =====
-- ctrd/image/image.go: the image record that a pull leaves.
use d2p_migrator.Prelude.{◌≡◌, true, Bool-cases, List, ◌∷◌, Str, ◌⊎◌, inl, inr, arith}
use d2p_migrator.Prelude.Dict.{Dict}
use d2p_migrator.Prelude.Result.{ok, err, Error, Class, is_class, Result-cases}
use d2p_migrator.Ctrd.Types.{Descriptor}
use d2p_migrator.Ctrd.Manifest.{
  RemoteContext, RemoteOpt, default_remote_context, apply_opts, pull_content, store_image,
  pull_leased, pull_manifest,
}
use d2p_migrator.World.{
  Host, Trace, lease_done, ctrd_with_lease, resolver_resolve, resolver_fetcher, image_create,
  image_update,
}

module _ (host : Host) where
  -- The image is created; or it cannot be, as it is there already, and is updated.
  abbrev pub Stored : Str → Descriptor → Dict Str → Trace → Trace → Type 0
  Stored name d labels before after =
      let create = image_create name d labels ∷ before in
      ((after ≡ create) × (host.image_create create ≡ ok tt))
      ⊎ ((after ≡ image_update name d labels ∷ create)
          × ((e : Error) × (host.image_create create ≡ err e)
              × (is_class e.class Class.already_exists ≡ true))
          × (host.image_update (image_update name d labels ∷ create) ≡ ok tt))

  store_image-Stored :
      (name : Str) (d : Descriptor) (labels : Dict Str) (t : Trace)
      → (store_image host name d labels t).0 ≡ ok tt
      → Stored name d labels t ((store_image host name d labels t).1)
  unfolding store_image
  store_image-Stored name d labels t h =
      let create : Trace = image_create name d labels ∷ t in
      elim (Result-cases (host.image_create create)) [
        | inl (_, e) ↦ inl (ground (arith, e), e)
        | inr (inl (error, e)) ↦ elim (Bool-cases (is_class error.class Class.already_exists)) [
          | inl there ↦
              inr (ground (arith, e, there), (error, e, there), ground (arith, h, e, there))
          | inr other ↦ absurd (ground (arith, h, e, other))
        ]
        | inr (inr e) ↦ absurd (ground (arith, h, e))
      ]

  pull_leased-Stored :
      (ref : Str) (c : RemoteContext) (t : Trace)
      → (pull_leased host ref c t).0 ≡ ok tt
      → (name : Str) × (desc : Descriptor) × (pulled : Descriptor) × (host.resolver_resolve
            (resolver_resolve ref ∷ t)
          ≡ ok (name, desc))
        × ((pull_content host c desc (resolver_fetcher name ∷ (resolver_resolve ref ∷ t))).0
            ≡ ok pulled)
        × Stored name pulled c.labels
            ((pull_content host c desc (resolver_fetcher name ∷ (resolver_resolve ref ∷ t))).1)
            ((pull_leased host ref c t).1)
  unfolding pull_leased
  pull_leased-Stored ref c t h =
      elim (Result-cases (host.resolver_resolve (resolver_resolve ref ∷ t))) [
        | inl ((name, desc), e) ↦
            elim (Result-cases
              (host.resolver_fetcher (resolver_fetcher name ∷ (resolver_resolve ref ∷ t)))) [
                | inl (_, e') ↦
                    let u : Trace = resolver_fetcher name ∷ (resolver_resolve ref ∷ t) in
                    elim (Result-cases ((pull_content host c desc u).0)) [
                      | inl (pulled, e'') ↦
                          let v : Trace = (pull_content host c desc u).1 in
                          let last : (pull_leased host ref c t).1
                              ≡ (store_image host name pulled c.labels v).1 =
                            ground (arith, e, e', e'') in
                          (
                            name,
                            desc,
                            pulled,
                            e,
                            e'',
                            rw last (
                                store_image-Stored name pulled c.labels v
                                  (ground (arith, h, e, e', e''))),
                          )
                      | inr (inl (_, e'')) ↦ absurd (ground (arith, h, e, e', e''))
                      | inr (inr e'') ↦ absurd (ground (arith, h, e, e', e''))
                    ]
                | inr (inl (_, e')) ↦ absurd (ground (arith, h, e, e'))
                | inr (inr e') ↦ absurd (ground (arith, h, e, e'))
              ]
        | inr (inl (_, e)) ↦ absurd (ground (arith, h, e))
        | inr (inr e) ↦ absurd (ground (arith, h, e))
      ]

  -- A pull that succeeds leaves an image record under the name that the resolver gave: that record is created, or
  -- updated where creating it has failed because it was there already, for the descriptor that the pull of the content returned, behind
  -- all of that content; and then the lease is released.
  pub pull_manifest-Stored :
      (ref : Str) (opts : List RemoteOpt) (t : Trace)
      → (pull_manifest host ref opts t).0 ≡ ok tt
      → (c : RemoteContext) × (name : Str) × (desc : Descriptor) × (pulled : Descriptor)
        × (u : Trace) × (apply_opts opts default_remote_context ≡ ok c)
        × (host.resolver_resolve (resolver_resolve ref ∷ (ctrd_with_lease ∷ t)) ≡ ok (name, desc))
        × ((pull_content host c desc
              (resolver_fetcher name ∷ (resolver_resolve ref ∷ (ctrd_with_lease ∷ t)))).0
            ≡ ok pulled)
        × Stored name pulled c.labels
            ((pull_content host c desc
              (resolver_fetcher name ∷ (resolver_resolve ref ∷ (ctrd_with_lease ∷ t)))).1)
            u
        × ((pull_manifest host ref opts t).1 ≡ lease_done ∷ u)
  unfolding pull_manifest
  pull_manifest-Stored ref opts t h = elim (Result-cases (apply_opts opts default_remote_context)) [
    | inl (c, e) ↦ elim (Result-cases (host.ctrd_with_lease (ctrd_with_lease ∷ t))) [
      | inl (_, e') ↦
          let leased : Trace = ctrd_with_lease ∷ t in
          let (name, desc, pulled, resolved, got, stored) =
            pull_leased-Stored ref c leased (ground (arith, h, e, e')) in
          (
            c,
            name,
            desc,
            pulled,
            (pull_leased host ref c leased).1,
            e,
            resolved,
            got,
            stored,
            ground (arith, e, e'),
          )
      | inr (inl (_, e')) ↦ absurd (ground (arith, h, e, e'))
      | inr (inr e') ↦ absurd (ground (arith, h, e, e'))
    ]
    | inr (inl (_, e)) ↦ absurd (ground (arith, h, e))
    | inr (inr e) ↦ absurd (ground (arith, h, e))
  ]
