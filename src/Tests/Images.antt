-- ===== src/Tests/Images.antt =====
-- Manifests of images.
use d2p_migrator.Prelude.{
  Bool, ℕ, zero, suc, ◌≡◌, ◌≢◌, ◌∙◌, refl, true, false, List, [], ◌∷◌, ◌++◌, none, some, Str, str,
  arith, inl, inr, ◌==◌,
}
use mathlib.Core.List.{reverse}
use d2p_migrator.Prelude.Result.{ok, panic, Result-cases}
use d2p_migrator.Ctrd.Types.{
  Descriptor, Converter, V1History, new_converter, OciManifest, OciHistory,
}
use d2p_migrator.Ctrd.Jose.{jose_base64_url_decode, strip_signature}
use d2p_migrator.Ctrd.Jose.RoundTrip.{encode, jose_base64_url_decode-encode}
use d2p_migrator.Ctrd.Jose.Strip.{Outcome, strip_signature-Outcome}
use d2p_migrator.Ctrd.Client.{pull_image, pull_options}
use d2p_migrator.Ctrd.Converter.{descriptor, media_image_manifest, schema1_manifest_history}
use d2p_migrator.Ctrd.Converter.Handle.{handle}
use d2p_migrator.Ctrd.Converter.Convert.{convert}
use d2p_migrator.Ctrd.Converter.Consistent.{Consistent, handle-Consistent}
use d2p_migrator.Ctrd.Converter.Grown.{Unidentified}
use d2p_migrator.Ctrd.Converter.Order.{
  schema1_manifest_history-reverse, converted_all, states, blanks,
}
use d2p_migrator.Ctrd.Converter.Writes.{Described, Source, descriptor_of, convert-onto}
use d2p_migrator.Ctrd.Converter.Labels.{Labelled}
use d2p_migrator.Prelude.Dict.{Dict}
use d2p_migrator.Ctrd.Converter.Safe.{Tame, convert-safe}
use d2p_migrator.Ctrd.Manifest.{
  RemoteContext, RemoteOpt, apply_opts, default_remote_context, pull_content, pull_manifest,
}
use d2p_migrator.Ctrd.Manifest.Quiet.{Walks}
use d2p_migrator.Ctrd.Manifest.Lease.{is_done, releases, pull_manifest-releases}
use d2p_migrator.Ctrd.Manifest.Stored.{Stored, pull_manifest-Stored}
use d2p_migrator.Command.{default_flags, run_cmd}
use d2p_migrator.Command.Calm.{run_cmd-calm}
use d2p_migrator.Migrator.Quiet.Outage.{is_outage}
use d2p_migrator.World.{
  Request, Trace, write_blob, lease_done, ctrd_with_lease, resolver_resolve, resolver_fetcher,
}
use d2p_migrator.World.Calls.{onto, number_of}
use d2p_migrator.World.Exec.{Exec}
use d2p_migrator.Tests.Samples.{host, forged, old_image, schema1, walk}
use d2p_migrator.Tests.Everything.{everything}

decode_tests :
    (jose_base64_url_decode (str "aGVsbG8_") ≡ ok (str "hello?"))
    × (jose_base64_url_decode (str "aGVsbA") ≡ ok (str "hell"))
unfolding everything
decode_tests = (refl, refl)

jose_base64_url_decode-encode_example :
    jose_base64_url_decode (encode (200 ∷ (7 ∷ []))) ≡ ok (200 ∷ (7 ∷ []))
jose_base64_url_decode-encode_example =
    jose_base64_url_decode-encode (200 ∷ (7 ∷ [])) (omega arith, (omega arith, tt))

pulled : (pull_image host (str "nginx") (str "overlayfs") true []).0 ≡ ok tt
unfolding everything
pulled = refl

pulls : (pull_manifest host (str "nginx") (pull_options (str "overlayfs")) []).0 ≡ ok tt
unfolding everything
pulls = refl

stripped : strip_signature host (str "{..}.") ≡ ok (str "{..}}")
unfolding everything
stripped = refl

strip_signature-Outcome_example : Outcome host (str "{..}.") (strip_signature host (str "{..}."))
strip_signature-Outcome_example =
    strip_signature-Outcome host (λ text p. cc) (λ text p. cc) (str "{..}.")

forged_panics : strip_signature forged (str "{..}.") ≡ panic
unfolding everything
forged_panics = refl

abbrev none_below : List Descriptor
none_below = []

handle-Consistent_example :
    Consistent ((handle host old_image new_converter []).1) × (none_below ≡ [])
unfolding everything
handle-Consistent_example =
    handle-Consistent host old_image new_converter [] [] refl (λ blob. refl) refl

abbrev converter : Converter
converter = record {
  pulled_manifest = some schema1;
  blob_map =
      (str "sha256:e", record { diff_id = []; empty = true })
      ∷ (str "sha256:b", record { diff_id = []; empty = false })
      ∷ [];
}

unidentified : Unidentified converter.blob_map
unfolding everything
unidentified blob = ground arith

abbrev consistent : Consistent converter
unfolding everything
consistent = record {
  manifest = schema1;
  pulled = refl;
  paired = refl;
  noted = (refl, (refl, tt));
  unidentified = unidentified;
}

abbrev decoded_history : Str → V1History
decoded_history s = record {
  author = [];
  created = str "2018";
  comment = s;
  throw_away = some (s == str "top");
  size = none;
  cmd = str "sh" ∷ str "-c" ∷ [];
}

abbrev histories : List V1History
histories = decoded_history (str "top") ∷ decoded_history (str "base") ∷ []

schema1_manifest_history-reverse_example :
    schema1_manifest_history host converter
    ≡ ok (reverse (converted_all histories (states converter.blob_map schema1.fs_layers)), blanks 1)
unfolding everything
schema1_manifest_history-reverse_example =
    schema1_manifest_history-reverse host converter consistent histories (omega arith)
      (refl, (refl, tt))

abbrev written : Descriptor
written = descriptor host media_image_manifest (str "top")

converts : (convert host converter []).0 ≡ ok written
unfolding everything
converts = refl

convert-onto_example :
    (made : List OciHistory × List Str) × (base : Str) × Source host converter made base
    × ((m : OciManifest) × (b : Str) × (mb : Str) × (labels : Dict Str) × Described host base made m
          b mb
        × Labelled m labels
        × (written ≡ descriptor_of host (str "application/vnd.oci.image.manifest.v1+json") mb)
        × ((convert host converter []).1
            ≡ onto
                (write_blob (host.make_ref_key written) mb written.size written.digest labels
                  ∷ write_blob (host.make_ref_key m.config) b m.config.size m.config.digest []
                  ∷ [])
                []))
convert-onto_example = convert-onto host converter [] written converts

tame : Tame host
tame = record {
  decode_v1_history_safe = λ s p. cc;
  decode_image_safe = λ s p. cc;
  marshal_image_safe = λ i p. cc;
  marshal_manifest_safe = λ m p. cc;
  write_blob_safe = λ t p. cc;
}

convert-safe_run : (convert host converter []).0 ≢ panic
convert-safe_run = convert-safe host tame converter [] consistent

number_of-walk :
    (p : Request → Bool) (n : ℕ) (handler : Descriptor → Exec Converter (List Descriptor))
    → ((d : Descriptor) (c : Converter) (t : Trace) → number_of p (handler d c t).2 ≡ number_of p t)
    → (ds : List Descriptor) (c : Converter) (t : Trace)
    → number_of p (walk n handler ds c t).2 ≡ number_of p t
number_of-walk p zero handler h ds c t = refl
number_of-walk p (suc n) handler h [] c t = refl
number_of-walk p (suc n) handler h (d ∷ ds) c t =
    let (r, c', t') = handler d c t in
    elim (Result-cases ((handler d c t).0)) [
      | inl (below, e) ↦ rw e (number_of-walk p n handler h (below ++ ds) c' t' ∙ h d c t)
      | inr (inl (_, e)) ↦ rw e (h d c t)
      | inr (inr e) ↦ rw e (h d c t)
    ]

walks : (p : Request → Bool) → Walks host p
walks p handler h d = number_of-walk p 10 handler h (d ∷ [])

run_cmd-calm_example : number_of is_outage (run_cmd host default_flags []).1 ≡ 0
unfolding number_of
run_cmd-calm_example = run_cmd-calm host (walks is_outage) default_flags refl []

abbrev options : List RemoteOpt
options = pull_options (str "overlayfs")

pull_manifest-releases_example : releases ((pull_manifest host (str "nginx") options []).1) ≡ 1
unfolding everything
pull_manifest-releases_example =
    pull_manifest-releases host (walks is_done) (str "nginx") options []

pull_manifest-Stored_example :
    (c : RemoteContext) × (name : Str) × (desc : Descriptor) × (content : Descriptor) × (u : Trace)
    × (apply_opts options default_remote_context ≡ ok c)
    × (host.resolver_resolve (resolver_resolve (str "nginx") ∷ (ctrd_with_lease ∷ []))
        ≡ ok (name, desc))
    × ((pull_content host c desc
          (resolver_fetcher name ∷ (resolver_resolve (str "nginx") ∷ (ctrd_with_lease ∷ [])))).0
        ≡ ok content)
    × Stored host name content c.labels
        ((pull_content host c desc
          (resolver_fetcher name ∷ (resolver_resolve (str "nginx") ∷ (ctrd_with_lease ∷ [])))).1)
        u
    × ((pull_manifest host (str "nginx") options []).1 ≡ lease_done ∷ u)
pull_manifest-Stored_example = pull_manifest-Stored host (str "nginx") options [] pulls
