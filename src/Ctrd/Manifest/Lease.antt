-- ===== src/Ctrd/Manifest/Lease.antt =====
-- ctrd/image/image.go: the lease of a pull, and the image that it leaves.
use d2p_migrator.Prelude.{
  ℕ, ◌+◌, ◌≡◌, refl, sym, Bool, true, false, ◌&&◌, not, List, ◌∷◌, Str, inl, inr, if◌then◌else◌,
  arith,
}
use d2p_migrator.Prelude.Result.{panic, Result, is_ok, Result-cases}
use d2p_migrator.Ctrd.Manifest.{
  RemoteOpt, default_remote_context, apply_opts, pull_leased, pull_manifest,
}
use d2p_migrator.World.{Host, Trace, Request, lease_done, ctrd_with_lease}
use d2p_migrator.Ctrd.Manifest.Quiet.{is_image, Walks, number_of-pull_leased}
use d2p_migrator.World.Calls.{number_of}

abbrev pub is_done : Request → Bool
is_done lease_done = true
is_done _ = false

abbrev pub releases : Trace → ℕ
releases t = number_of is_done t

image-held : (r : Request) → is_image r ≡ true → is_done r ≡ false
image-held lease_done h = sym h
image-held _ h = refl

abbrev pub is_panic {ℓ} : {A : Type ℓ} → Result A → Bool
is_panic panic = true
is_panic _ = false

module _ (host : Host) (keeps : Walks host is_done) where
  -- A pull of a manifest releases exactly the lease that it takes: once where the options and the lease
  -- succeed, whether what follows succeeds or fails, and never otherwise. Where what follows panics, as a handler of the
  -- walk does in its own goroutine, the process ends and the lease is not released. The walk of an image is
  -- assumed to release no lease by itself.
  pub pull_manifest-releases :
      (ref : Str) (opts : List RemoteOpt) (t : Trace)
      → releases ((pull_manifest host ref opts t).1)
        ≡ releases t
          + (if is_ok (apply_opts opts default_remote_context)
                && (is_ok (host.ctrd_with_lease (ctrd_with_lease ∷ t))
                    && not (is_panic (pull_manifest host ref opts t).0))
              then 1
              else 0)
  unfolding pull_manifest number_of
  pull_manifest-releases ref opts t = elim (Result-cases (apply_opts opts default_remote_context)) [
    | inl (c, e) ↦ elim (Result-cases (host.ctrd_with_lease (ctrd_with_lease ∷ t))) [
      | inl (_, e') ↦
          let quiet =
            number_of-pull_leased host is_done image-held keeps ref c (ctrd_with_lease ∷ t) in
          elim (Result-cases ((pull_leased host ref c (ctrd_with_lease ∷ t)).0)) [
            | inl (_, e'') ↦ ground (arith, e, e', e'', quiet)
            | inr (inl (_, e'')) ↦ ground (arith, e, e', e'', quiet)
            | inr (inr e'') ↦ ground (arith, e, e', e'', quiet)
          ]
      | inr (inl (_, e')) ↦ ground (arith, e, e')
      | inr (inr e') ↦ ground (arith, e, e')
    ]
    | inr (inl (_, e)) ↦ ground (arith, e)
    | inr (inr e) ↦ ground (arith, e)
  ]
