-- ===== src/Tests/Pulls.antt =====
-- A pull of a manifest whose signature is forged.
use d2p_migrator.Prelude.{ℕ, zero, suc, ◌≡◌, ◌≢◌, refl, Str, List, [], ◌∷◌, ◌++◌, str, inl, inr}
use d2p_migrator.Prelude.Result.{ok, panic, Result-cases}
use d2p_migrator.Ctrd.Types.{Descriptor, Converter}
use d2p_migrator.Ctrd.Client.{pull_options}
use d2p_migrator.Ctrd.Converter.Reads.{Legible}
use d2p_migrator.Ctrd.Converter.Safe.{Tame}
use d2p_migrator.Ctrd.Manifest.{RemoteContext, pull_manifest, apply_opts, default_remote_context}
use d2p_migrator.Ctrd.Manifest.Safe.{Handler, Walking, Answering, Panicked, pull_manifest-panic}
use d2p_migrator.World.{Trace, ctrd_with_lease, resolver_resolve, resolver_fetcher}
use d2p_migrator.Tests.Samples.{forged, walk}
use d2p_migrator.Tests.Everything.{everything}

walk-safe :
    (n : ℕ) (handler : Handler)
    → ((d : Descriptor) (c : Converter) (t : Trace) → (handler d c t).0 ≢ panic)
    → (ds : List Descriptor) (c : Converter) (t : Trace) → (walk n handler ds c t).0 ≢ panic
walk-safe zero handler h ds c t = λ p. cc
walk-safe (suc n) handler h [] c t = λ p. cc
walk-safe (suc n) handler h (d ∷ ds) c t =
    let (_, c', t') = handler d c t in
    elim (Result-cases ((handler d c t).0)) [
      | inl (below, e) ↦ rw e (walk-safe n handler h (below ++ ds) c' t')
      | inr (inl (_, e)) ↦ rw e (λ p. cc)
      | inr (inr e) ↦ absurd (h d c t e)
    ]

walking : Walking forged
walking = record {
  leaf = λ handler d c t e. rw e refl;
  stops = λ handler d c t error e. rw e refl;
  safe = λ handler h d. walk-safe 10 handler h (d ∷ []);
}

answering : Answering forged
answering = record {
  lease_safe = λ t p. cc;
  resolve_safe = λ t p. cc;
  fetcher_safe = λ t p. cc;
  fetch_content_safe = λ t p. cc;
  read_blob_safe = λ t p. cc;
  create_safe = λ t p. cc;
  update_safe = λ t p. cc;
  decode_manifest_safe = λ s p. cc;
  decode_index_safe = λ s p. cc;
  parse_platform_safe = λ s p. cc;
}

legible : Legible forged
legible = record {
  fetch_safe = λ t p. cc;
  decode_schema1_safe = λ s p. cc;
  decode_v1_history_safe = λ s p. cc;
  decode_signatures_safe = λ s p. cc;
  decode_protected_safe = λ s p. cc;
}

tame : Tame forged
tame = record {
  decode_v1_history_safe = λ s p. cc;
  decode_image_safe = λ s p. cc;
  marshal_image_safe = λ i p. cc;
  marshal_manifest_safe = λ m p. cc;
  write_blob_safe = λ t p. cc;
}

options_safe : apply_opts (pull_options (str "overlayfs")) default_remote_context ≢ panic
unfolding everything
options_safe p = cc

pull_panics : (pull_manifest forged (str "nginx") (pull_options (str "overlayfs")) []).0 ≡ panic
unfolding everything
pull_panics = refl

pull_manifest-panic_example :
    (c : RemoteContext) × (name : Str) × (d : Descriptor) × (apply_opts
        (pull_options (str "overlayfs"))
        default_remote_context
      ≡ ok c)
    × (forged.resolver_resolve (resolver_resolve (str "nginx") ∷ (ctrd_with_lease ∷ []))
        ≡ ok (name, d))
    × Panicked forged c d
        (resolver_fetcher name ∷ (resolver_resolve (str "nginx") ∷ (ctrd_with_lease ∷ [])))
pull_manifest-panic_example =
    pull_manifest-panic forged walking answering legible tame (str "nginx")
      (pull_options (str "overlayfs")) [] options_safe pull_panics
