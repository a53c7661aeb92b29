-- ===== src/Migrator/Live/Quiet.antt =====
-- migrator/live_migrate.go: what `PreMigrate` of the live migration does not ask for.
use d2p_migrator.Prelude.{
  Bool, true, false, List, [], ◌∷◌, ◌≡◌, refl, ◌∙◌, inl, inr, Option, none, some, Str, arith,
}
use d2p_migrator.Prelude.Result.{Result-cases}
use d2p_migrator.Docker.{ContainerSummary}
use d2p_migrator.Pouch
use d2p_migrator.Hookplugins.{ContainerPlugin}
use d2p_migrator.Ctrd.Client.{new_container}
use d2p_migrator.Migrator.Live.{
  LiveMigrator, Locals, delete_found, take_over, prepare_ctrd_containers, plug, migrate_container,
  migrate_containers, pre_migrate_list, pre_migrate,
}
use d2p_migrator.Migrator.Quiet.{is_storage}
use d2p_migrator.Migrator.Quiet.Storage.{number_of-save_to_disk}
use d2p_migrator.Migrator.Quiet.Volumes.{number_of-to_volumes, number_of-prepare_volumes}
use d2p_migrator.Migrator.Quiet.Sandboxes.{number_of-generate_sandbox_meta_json}
use d2p_migrator.World.{
  Host, Request, Trace, Attempt, done, failed, container_new, container_delete,
}
use d2p_migrator.World.Calls.{number_of}

-- A plugin makes no request of a kind.
abbrev pub PluginQuiet : (Request → Bool) → Option ContainerPlugin → Type 0
PluginQuiet p none = Unit
PluginQuiet p (some plugin) =
    (home : Str) (meta : Pouch.Container) (t : Trace)
    → number_of p (plugin.post_convert home meta t).1 ≡ number_of p t

module _ (host : Host) (p : Request → Bool)
    (quiet : (r : Request) → is_storage r ≡ true → p r ≡ false)
    (no_new : (a b : Str) → p (container_new a b) ≡ false)
    (no_delete : (a : Str) → p (container_delete a) ≡ false) where
  number_of-delete_found :
      (id : Str) (found : Attempt (Unit {0})) (t : Trace)
      → number_of p (delete_found host id found t).1 ≡ number_of p t
  unfolding delete_found number_of
  number_of-delete_found id (done _) t = grind (arith, no_delete)
  number_of-delete_found id (failed e) t = grind arith

  number_of-new_container :
      (id : Str) (t : Trace) → number_of p (new_container host id t).1 ≡ number_of p t
  unfolding new_container number_of
  number_of-new_container id t = grind (arith, quiet, no_new)

  number_of-take_over : (id : Str) (t : Trace) → number_of p (take_over host id t).1 ≡ number_of p t
  unfolding take_over number_of
  number_of-take_over id t = grind (arith, quiet, number_of-delete_found, number_of-new_container)

  number_of-prepare_ctrd_containers :
      (meta : Pouch.Container) (t : Trace)
      → number_of p (prepare_ctrd_containers host meta t).1 ≡ number_of p t
  unfolding prepare_ctrd_containers
  number_of-prepare_ctrd_containers meta t = grind (arith, number_of-take_over)

  number_of-plug :
      (plugin : Option ContainerPlugin) (home : Str) (meta : Pouch.Container) (t : Trace)
      → PluginQuiet p plugin
      → number_of p (plug host plugin home meta t).1 ≡ number_of p t
  unfolding plug
  number_of-plug none home meta t h = refl
  number_of-plug (some plugin) home meta t h = grind (arith, h home meta t)

  number_of-migrate_container :
      (c : ContainerSummary) (locals : Locals) (lm : LiveMigrator) (t : Trace)
      → PluginQuiet p lm.container_plugin
      → number_of p (migrate_container host c locals lm t).2 ≡ number_of p t
  unfolding migrate_container number_of
  number_of-migrate_container c locals lm t h = grind (
    arith,
    quiet,
    number_of-prepare_ctrd_containers,
    number_of-save_to_disk host p quiet,
    λ (home : Str) (meta : Pouch.Container) (u : Trace).
        number_of-plug lm.container_plugin home meta u h,
  )

  plugin-migrate_container :
      (c : ContainerSummary) (locals : Locals) (lm : LiveMigrator) (t : Trace)
      → (migrate_container host c locals lm t).1.container_plugin ≡ lm.container_plugin
  unfolding migrate_container
  plugin-migrate_container c locals lm t = grind arith

  number_of-migrate_containers :
      (cs : List ContainerSummary) (locals : Locals) (lm : LiveMigrator) (t : Trace)
      → PluginQuiet p lm.container_plugin
      → number_of p (migrate_containers host cs locals lm t).2 ≡ number_of p t
  unfolding migrate_containers
  number_of-migrate_containers [] locals lm t h = refl
  number_of-migrate_containers (c ∷ cs) locals lm t h =
      elim (Result-cases (migrate_container host c locals lm t).0) [
        | inl (locals', e) ↦
            let (_, lm', t') = migrate_container host c locals lm t in
            let kept : PluginQuiet p lm'.container_plugin =
              rw (plugin-migrate_container c locals lm t) h in
            rw e (
              number_of-migrate_containers cs locals' lm' t' kept
              ∙ number_of-migrate_container c locals lm t h)
        | inr (inl (_, e)) ↦ rw e (number_of-migrate_container c locals lm t h)
        | inr (inr e) ↦ rw e (number_of-migrate_container c locals lm t h)
      ]

  number_of-pre_migrate_list :
      (cs : List ContainerSummary) (lm : LiveMigrator) (t : Trace)
      → PluginQuiet p lm.container_plugin
      → number_of p (pre_migrate_list host cs lm t).2 ≡ number_of p t
  unfolding pre_migrate_list number_of
  number_of-pre_migrate_list [] lm t h = refl
  number_of-pre_migrate_list (c ∷ cs) lm t h = grind (
    arith,
    quiet,
    number_of-to_volumes host p quiet,
    λ (locals : Locals) (u : Trace). number_of-migrate_containers (c ∷ cs) locals lm u h,
    number_of-prepare_volumes host p quiet,
    number_of-generate_sandbox_meta_json host p quiet,
  )

  pub number_of-pre_migrate :
      (lm : LiveMigrator) (t : Trace)
      → PluginQuiet p lm.container_plugin
      → number_of p (pre_migrate host lm t).2 ≡ number_of p t
  unfolding pre_migrate number_of
  number_of-pre_migrate lm t h = grind (
    arith,
    quiet,
    λ (cs : List ContainerSummary) (u : Trace). number_of-pre_migrate_list cs lm u h,
  )
