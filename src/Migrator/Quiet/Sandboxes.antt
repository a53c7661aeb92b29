-- ===== src/Migrator/Quiet/Sandboxes.antt =====
-- migrator/cri_migrate.go and pouch/convertor/cri.go: the metadata of sandboxes.
use d2p_migrator.Prelude.{Bool, true, false, List, [], ◌∷◌, ◌≡◌, refl, Str, arith}
use d2p_migrator.Pouch
use d2p_migrator.Convertor.Sandbox.{to_dns_config, to_pod_sandbox_config, to_cri_meta_json}
use d2p_migrator.Migrator.Disk.{ensure_dir}
use d2p_migrator.Migrator.Quiet.{is_storage}
use d2p_migrator.Migrator.Sandboxes.{
  new_cri_store, setup_sandbox_files, create_sandboxes, generate_sandbox_meta_json,
}
use d2p_migrator.Utils.Files.{copy_file}
use d2p_migrator.World.{Host, Request, Trace}
use d2p_migrator.World.Calls.{number_of}

module _ (host : Host) (p : Request → Bool)
    (quiet : (r : Request) → is_storage r ≡ true → p r ≡ false) where
  number_of-to_dns_config :
      (path : Str) (t : Trace) → number_of p (to_dns_config host path t).1 ≡ number_of p t
  unfolding to_dns_config number_of
  number_of-to_dns_config [] t = refl
  number_of-to_dns_config (c ∷ path) t = grind (arith, quiet)

  number_of-to_cri_meta_json :
      (c : Pouch.Container) (t : Trace) → number_of p (to_cri_meta_json host c t).1 ≡ number_of p t
  unfolding to_cri_meta_json to_pod_sandbox_config
  number_of-to_cri_meta_json c t = grind (arith, number_of-to_dns_config)

  number_of-setup_sandbox_files :
      (dir path id : Str) (t : Trace)
      → number_of p (setup_sandbox_files host dir path id t).1 ≡ number_of p t
  unfolding setup_sandbox_files ensure_dir copy_file number_of
  number_of-setup_sandbox_files dir path id t = grind (arith, quiet)

  number_of-create_sandboxes :
      (dir : Str) (cs : List Pouch.Container) (t : Trace)
      → number_of p (create_sandboxes host dir cs t).1 ≡ number_of p t
  unfolding create_sandboxes number_of
  number_of-create_sandboxes dir [] t = refl
  number_of-create_sandboxes dir (c ∷ cs) t = grind (
    arith,
    quiet,
    number_of-to_cri_meta_json,
    number_of-setup_sandbox_files,
    number_of-create_sandboxes dir cs,
  )

  number_of-new_cri_store :
      (dir : Str) (t : Trace) → number_of p (new_cri_store host dir t).1 ≡ number_of p t
  unfolding new_cri_store ensure_dir number_of
  number_of-new_cri_store dir t = grind (arith, quiet)

  pub number_of-generate_sandbox_meta_json :
      (dir : Str) (cs : List Pouch.Container) (t : Trace)
      → number_of p (generate_sandbox_meta_json host dir cs t).1 ≡ number_of p t
  unfolding generate_sandbox_meta_json number_of
  number_of-generate_sandbox_meta_json dir cs t =
      grind (arith, quiet, number_of-create_sandboxes, number_of-new_cri_store)
