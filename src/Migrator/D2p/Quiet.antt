-- ===== src/Migrator/D2p/Quiet.antt =====
-- migrator/migrator.go: the construction and `PreMigrate` of a migrator disturb no container.
use d2p_migrator.Prelude.{
  Bool, ◌≡◌, refl, ◌∙◌, Option, some, Str, str, ◌==◌, ==_refl, arith, ◌⊎◌, inl, inr, Bool-cases,
}
use d2p_migrator.Prelude.Result.{ok, Result-cases}
use d2p_migrator.Hookplugins.{ContainerPlugin}
use d2p_migrator.Ctrd.Client.{new_ctrd_client}
use d2p_migrator.Ctrd.Process.{start_containerd}
use d2p_migrator.Migrator.Live.Quiet.{PluginQuiet, number_of-pre_migrate}
use d2p_migrator.Pouch.Service.{change_home_dir}
use d2p_migrator.Migrator.Disk.{prepare_config_for_pouch, ensure_dir}
use d2p_migrator.Migrator.D2p.{
  D2pMigrator, Migrator, cold, live, Config, new_d2p_migrator, make_cold, make_live, init_pouch_env,
  after_init, pre_migrate_on, pre_migrate,
}
use d2p_migrator.Migrator.D2p.Start.{kind, new_d2p_migrator-kind}
use d2p_migrator.Migrator.Quiet.Phases
use d2p_migrator.Migrator.Quiet.Outage.{is_outage, storage-outage}
use d2p_migrator.World.{Host, Trace}
use d2p_migrator.World.Calls.{number_of}

-- The plugin of a live migrator is quiet.
abbrev pub MigratorQuiet : Migrator → Type 0
MigratorQuiet (cold cm) = Unit
MigratorQuiet (live lm) = PluginQuiet is_outage lm.container_plugin

kind-MigratorQuiet :
    (type : Str) (make : Config → Migrator) (cfg : Config)
    → kind type ≡ some make
    → PluginQuiet is_outage cfg.container_plugin
    → MigratorQuiet (make cfg)
kind-MigratorQuiet type make cfg known quiet = elim (kind-cases type make known) [
  | inl e ↦ rw e tt
  | inr e ↦ rw e quiet
]
  where
    kind-cases :
        (type : Str) (make : Config → Migrator)
        → kind type ≡ some make
        → (make ≡ make_cold) ⊎ (make ≡ make_live)
    kind-cases type make known = elim (Bool-cases (str "cold-migrate" == type)) [
      | inl c ↦ inl (ground (arith, known, c))
      | inr c ↦ elim (Bool-cases (str "live-migrate" == type)) [
        | inl l ↦ inr (ground (arith, known, c, l))
        | inr l ↦ absurd (ground (arith, known, c, l))
      ]
    ]

module _ (host : Host) where
  outages-new_ctrd_client :
      (t : Trace) → number_of is_outage (new_ctrd_client host t).1 ≡ number_of is_outage t
  unfolding new_ctrd_client number_of
  outages-new_ctrd_client t = grind arith

  outages-start_containerd :
      (home : Str) (debug : Bool) (t : Trace)
      → number_of is_outage (start_containerd host home debug t).1 ≡ number_of is_outage t
  unfolding start_containerd number_of
  outages-start_containerd home debug t = grind arith

  pub outages-new_d2p_migrator :
      (plugin : Option ContainerPlugin) (cfg : Config) (t : Trace)
      → number_of is_outage (new_d2p_migrator host plugin cfg t).1 ≡ number_of is_outage t
  unfolding new_d2p_migrator number_of
  outages-new_d2p_migrator plugin cfg t =
      grind (arith, outages-new_ctrd_client, outages-start_containerd)

  pub new_d2p_migrator-MigratorQuiet :
      (plugin : Option ContainerPlugin) (cfg : Config) (t : Trace) (d : D2pMigrator)
      → PluginQuiet is_outage plugin
      → (new_d2p_migrator host plugin cfg t).0 ≡ ok d
      → MigratorQuiet d.migrator
  new_d2p_migrator-MigratorQuiet plugin cfg t d quiet h =
      let (i, _, _, _, (make, known, e)) = new_d2p_migrator-kind host plugin cfg t d h in
      rw e (
        kind-MigratorQuiet cfg.type make (record (d.config) { container_plugin = plugin }) known
          quiet)

  outages-change_home_dir :
      (home : Str) (t : Trace)
      → number_of is_outage (change_home_dir host home t).1 ≡ number_of is_outage t
  unfolding change_home_dir number_of
  outages-change_home_dir home t = grind (arith, ==_refl (str "sed"))

  outages-init_pouch_env :
      (d : D2pMigrator) (t : Trace)
      → number_of is_outage (init_pouch_env host d t).1 ≡ number_of is_outage t
  unfolding init_pouch_env prepare_config_for_pouch ensure_dir number_of
  outages-init_pouch_env d t = grind (arith, outages-change_home_dir)

  outages-pre_migrate_on :
      (m : Migrator) (d : D2pMigrator) (t : Trace)
      → MigratorQuiet m
      → number_of is_outage (pre_migrate_on host m d t).2 ≡ number_of is_outage t
  unfolding pre_migrate_on
  outages-pre_migrate_on (cold cm) d t h =
      Phases.number_of-pre_migrate host is_outage storage-outage (λ a b c. refl) cm t
  outages-pre_migrate_on (live lm) d t h =
      number_of-pre_migrate host is_outage storage-outage (λ a b. refl) (λ a. refl) lm t h

  pub outages-pre_migrate :
      (d : D2pMigrator) (t : Trace)
      → MigratorQuiet d.migrator
      → number_of is_outage (pre_migrate host d t).2 ≡ number_of is_outage t
  unfolding pre_migrate after_init
  outages-pre_migrate d t h = elim (Result-cases (init_pouch_env host d t).0) [
    | inl (_, e) ↦ rw e (
        outages-pre_migrate_on d.migrator d (init_pouch_env host d t).1 h
        ∙ outages-init_pouch_env d t)
    | inr (inl (_, e)) ↦ rw e (outages-init_pouch_env d t)
    | inr (inr e) ↦ rw e (outages-init_pouch_env d t)
  ]
