-- ===== src/Migrator/D2p/Start.antt =====
-- migrator/migrator.go: when `NewD2pMigrator` starts a containerd, and which migrator it makes.
use d2p_migrator.Prelude.{
  Bool, true, false, ◌∷◌, ◌≡◌, refl, ◌∙◌, Option, none, some, Str, str, dec_str, ◌==◌, arith, inl,
  inr, if◌then◌else◌, Option-cases,
}
use d2p_migrator.Prelude.Dict.{lookup, insert}
use d2p_migrator.Prelude.Result.{Result, ok, err, panic, is_ok, Result-cases}
use d2p_migrator.Docker
use d2p_migrator.Ctrd.Client.{new_ctrd_client}
use d2p_migrator.Migrator.D2p.{
  load_plugin, Config, D2pMigrator, Migrator, new_d2p_migrator, with_defaults, find_factory,
  make_cold, make_live, migrator_factory, register,
}
use d2p_migrator.Migrator.Disk.{validate_docker}
use d2p_migrator.Hookplugins.{ContainerPlugin}
use d2p_migrator.World.{Host, Trace, Request, start_process, docker_info, docker_new_client}
use d2p_migrator.World.Calls.{number_of}

abbrev pub is_start : Request → Bool
is_start (start_process _ _ _) = true
is_start _ = false

-- Whether docker's answer is one that the migration supports.
abbrev pub supported : Result Docker.Info → Bool
supported (ok i) = is_ok (validate_docker i)
supported (err _) = false
supported panic = false

module _ (host : Host) where
  starts-new_ctrd_client :
      (t : Trace) → number_of is_start (new_ctrd_client host t).1 ≡ number_of is_start t
  unfolding new_ctrd_client number_of
  starts-new_ctrd_client t = ground arith

  -- Where docker's answer about itself is no supported one, no process is started, and no migrator
  -- is made.
  pub new_d2p_migrator-unsupported :
      (plugin : Option ContainerPlugin) (cfg : Config) (t : Trace)
      → supported (host.docker_info (docker_info ∷ docker_new_client ∷ t)) ≡ false
      → (number_of is_start (new_d2p_migrator host plugin cfg t).1 ≡ number_of is_start t)
        × (is_ok (new_d2p_migrator host plugin cfg t).0 ≡ false)
  unfolding new_d2p_migrator number_of
  new_d2p_migrator-unsupported plugin cfg t h = (ground (arith, h), ground (arith, h))

kinds-apart : (str "cold-migrate" == str "live-migrate") ≡ false
unfolding str dec_str
kinds-apart = refl

-- The constructor that belongs to a type, if one does.
abbrev pub kind : Str → Option (Config → Migrator)
kind type =
    if str "cold-migrate" == type
    then some make_cold
    else if str "live-migrate" == type
    then some make_live
    else none

lookup-migrator_factory : (type : Str) → lookup type migrator_factory ≡ kind type
unfolding migrator_factory register insert lookup
lookup-migrator_factory type = ground (arith, kinds-apart)

find_factory-some :
    (type : Str) (make : Config → Migrator)
    → lookup type migrator_factory ≡ some make
    → find_factory type ≡ ok make
unfolding find_factory
find_factory-some type make known = rw (known, find_factory) refl

load_plugin-none : (plugin : Option ContainerPlugin) → load_plugin plugin none ≡ plugin
unfolding load_plugin
load_plugin-none none = refl
load_plugin-none (some p) = refl

module _ (host : Host) where
  -- A migrator that is made is the one that belongs to the type of the configuration, over docker's
  -- own root directory and with the plugin that is registered; docker's answer is a supported one.
  pub new_d2p_migrator-kind :
      (plugin : Option ContainerPlugin) (cfg : Config) (t : Trace) (d : D2pMigrator)
      → (new_d2p_migrator host plugin cfg t).0 ≡ ok d
      → (i : Docker.Info) × (host.docker_info (docker_info ∷ docker_new_client ∷ t) ≡ ok i)
        × (is_ok (validate_docker i) ≡ true)
        × (d.config.docker_home_dir ≡ i.docker_root_dir)
        × ((make : Config → Migrator) × (kind cfg.type ≡ some make)
            × (d.migrator ≡ make (record (d.config) { container_plugin = plugin })))
  unfolding new_d2p_migrator with_defaults
  new_d2p_migrator-kind plugin cfg t d h =
      elim (Result-cases (host.docker_info (docker_info ∷ docker_new_client ∷ t))) [
        | inl (i, answer) ↦ elim (Option-cases (kind cfg.type)) [
          | inl unknown ↦
              absurd (ground (arith, h, answer, unknown, lookup-migrator_factory cfg.type))
          | inr (make, known) ↦
              let found : find_factory cfg.type ≡ ok make =
                find_factory-some cfg.type make (lookup-migrator_factory cfg.type ∙ known) in
              (
                i,
                answer,
                ground (arith, h, answer, found),
                ground (arith, h, answer, found),
                (make, known, ground (arith, h, answer, found, load_plugin-none plugin)),
              )
        ]
        | inr (inl (e, answer)) ↦ absurd (ground (arith, h, answer))
        | inr (inr answer) ↦ absurd (ground (arith, h, answer))
      ]
