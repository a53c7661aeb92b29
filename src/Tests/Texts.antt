-- ===== src/Tests/Texts.antt =====
-- Names of images and of sandboxes.
use d2p_migrator.Prelude.{◌≡◌, refl, true, str}
use d2p_migrator.Prelude.Result.{ok}
use d2p_migrator.Convertor.SandboxName.{
  sandbox_name_match, get_pod_sandbox_metadata_by_sandbox_name,
}
use d2p_migrator.Ctrd.Reference.{add_default_registry_if_missing}
use d2p_migrator.Tests.Everything.{everything}

reference_tests :
    (add_default_registry_if_missing (str "nginx:1") (str "r.io") (str "library")
      ≡ str "r.io/library/nginx:1")
    × (add_default_registry_if_missing (str "a/nginx") (str "r.io") (str "library")
        ≡ str "r.io/a/nginx")
    × (add_default_registry_if_missing (str "x.y/nginx") (str "r.io") (str "library")
        ≡ str "x.y/nginx")
unfolding everything
reference_tests = (refl, refl, refl)

sandbox_matches : sandbox_name_match (str "k8s_POD_a_b_c_0") ≡ true
unfolding everything
sandbox_matches = refl

sandbox_metadata :
    get_pod_sandbox_metadata_by_sandbox_name (str "k8s_POD_a_b_c_12")
    ≡ ok (record { name = str "a"; uid = str "c"; namespace = str "b"; attempt = 12 })
unfolding everything
sandbox_metadata = refl
