-- ===== src/Migrator/Live/Lost.antt =====
-- migrator/live_migrate.go: the containers that `PreMigrate` of the live migration notes, and those that docker does not list
-- any more in `PostMigrate`.
use d2p_migrator.Prelude.{
  false, not, ◌&&◌, List, [], ◌∷◌, ◌≡◌, refl, some, Str, member, arith, if◌then◌else◌, inl, inr,
}
use d2p_migrator.Prelude.Dict.{lookup, lookup-insert, NodupKeys, insert-NodupKeys, insert}
use d2p_migrator.Prelude.Result.{ok, Result-cases}
use d2p_migrator.Docker.{ContainerSummary, ids}
use d2p_migrator.Convertor.Volumes.{to_volumes}
use d2p_migrator.Migrator.Live.{
  LiveMigrator, Locals, migrate_container, migrate_containers, pre_migrate_list, pre_migrate,
  post_migrate,
}
use d2p_migrator.Migrator.Removal.{mark_existing, deleted_of, replace_docker}
use d2p_migrator.Migrator.Removal.Laws.{deleted_of-mark_existing}
use d2p_migrator.World.{Host, Trace, docker_container_list, docker_volume_list}

-- What the loop over the containers leaves in the migrator.
pub record Tracked (cs : List ContainerSummary) (lm lm' : LiveMigrator) : Type 0 where
  pub home : lm'.docker_home_dir ≡ lm.docker_home_dir
  pub plugin : lm'.container_plugin ≡ lm.container_plugin
  pub all :
      (k : Str)
      → lookup k lm'.all_containers
        ≡ (if member k (ids cs) then some false else lookup k lm.all_containers)
  pub keyed : NodupKeys lm.all_containers → NodupKeys lm'.all_containers

abbrev tracked : ContainerSummary → LiveMigrator → LiveMigrator
tracked c lm = record lm { all_containers = insert c.id false lm.all_containers }

tracked-Tracked :
    (c : ContainerSummary) (cs : List ContainerSummary) (lm lm' : LiveMigrator)
    → Tracked cs (tracked c lm) lm'
    → Tracked (c ∷ cs) lm lm'
tracked-Tracked c cs lm lm' rest = record {
  home = rest.home;
  plugin = rest.plugin;
  all = λ k. ground (arith, rest.all k, lookup-insert c.id k false lm.all_containers);
  keyed = λ u. rest.keyed (insert-NodupKeys c.id false lm.all_containers u);
}

abbrev no_locals : Locals
no_locals = record { volume_refs = []; sandbox_containers = [] }

module _ (host : Host) where
  -- However a round ends, it notes its container and nothing else.
  migrate_container-tracked :
      (c : ContainerSummary) (locals : Locals) (lm : LiveMigrator) (t : Trace)
      → (migrate_container host c locals lm t).1 ≡ tracked c lm
  unfolding migrate_container
  migrate_container-tracked c locals lm t = grind arith

  migrate_containers-Tracked :
      (cs : List ContainerSummary) (locals : Locals) (lm : LiveMigrator) (t : Trace)
      {locals' : Locals}
      → (migrate_containers host cs locals lm t).0 ≡ ok locals'
      → Tracked cs lm (migrate_containers host cs locals lm t).1
  unfolding migrate_containers
  migrate_containers-Tracked [] locals lm t h = record {
    home = refl;
    plugin = refl;
    all = λ k. refl;
    keyed = λ u. u;
  }
  migrate_containers-Tracked (c ∷ cs) locals lm t h =
      elim (Result-cases (migrate_container host c locals lm t).0) [
        | inl (next, e) ↦
            let t' = (migrate_container host c locals lm t).2 in
            let same : migrate_containers host (c ∷ cs) locals lm t
                ≡ migrate_containers host cs next (tracked c lm) t' =
              rw (e, migrate_container-tracked c locals lm t) refl in
            rw same (
              tracked-Tracked c cs lm _
                (migrate_containers-Tracked cs next (tracked c lm) t' (rw same at h)))
        | inr (inl (_, e)) ↦ absurd (ground (arith, e, h))
        | inr (inr e) ↦ absurd (ground (arith, e, h))
      ]

  pre_migrate_list-Tracked :
      (cs : List ContainerSummary) (lm : LiveMigrator) (t : Trace)
      → (pre_migrate_list host cs lm t).0 ≡ ok tt
      → Tracked cs lm (pre_migrate_list host cs lm t).1
  unfolding pre_migrate_list
  pre_migrate_list-Tracked [] lm t h = record {
    home = refl;
    plugin = refl;
    all = λ k. refl;
    keyed = λ u. u;
  }
  pre_migrate_list-Tracked (c ∷ cs) lm t h =
      let t' = docker_volume_list ∷ t in
      elim (Result-cases (host.docker_volume_list t')) [
        | inl (volumes, e) ↦ elim (Result-cases (to_volumes host volumes t').0) [
          | inl (_, e') ↦
              let u : Trace = (to_volumes host volumes t').1 in
              elim (Result-cases (migrate_containers host (c ∷ cs) no_locals lm u).0) [
                | inl (_, e'') ↦
                    let same : (pre_migrate_list host (c ∷ cs) lm t).1
                        ≡ (migrate_containers host (c ∷ cs) no_locals lm u).1 =
                      ground (arith, e, e', e'') in
                    rw same (migrate_containers-Tracked (c ∷ cs) no_locals lm u e'')
                | inr (inl (_, e'')) ↦ absurd (ground (arith, h, e, e', e''))
                | inr (inr e'') ↦ absurd (ground (arith, h, e, e', e''))
              ]
          | inr (inl (_, e')) ↦ absurd (ground (arith, h, e, e'))
          | inr (inr e') ↦ absurd (ground (arith, h, e, e'))
        ]
        | inr (inl (_, e)) ↦ absurd (ground (arith, h, e))
        | inr (inr e) ↦ absurd (ground (arith, h, e))
      ]

  pub pre_migrate-Tracked :
      (cs : List ContainerSummary) (lm : LiveMigrator) (t : Trace)
      → host.docker_container_list (docker_container_list ∷ t) ≡ ok cs
      → (pre_migrate host lm t).0 ≡ ok tt
      → Tracked cs lm (pre_migrate host lm t).1
  unfolding pre_migrate
  pre_migrate-Tracked cs lm t listed h =
      rw listed (pre_migrate_list-Tracked cs lm (docker_container_list ∷ t) (rw listed at h))

  -- `PostMigrate` replaces docker with the containers that it then finds missing.
  post_migrate-replace :
      (docker_rpm_name pouch_rpm_path : Str) (after : List ContainerSummary) (lm : LiveMigrator)
      (t : Trace)
      → host.docker_container_list (docker_container_list ∷ t) ≡ ok after
      → (
        (post_migrate host docker_rpm_name pouch_rpm_path lm t).0,
        (post_migrate host docker_rpm_name pouch_rpm_path lm t).2,
      )
        ≡ replace_docker host docker_rpm_name pouch_rpm_path
            (deleted_of (mark_existing after lm.all_containers))
            (docker_container_list ∷ t)
  unfolding post_migrate
  post_migrate-replace docker_rpm_name pouch_rpm_path after lm t listed = rw listed refl

  -- Where `PreMigrate` of a live migrator that has noted no container yet returns no error, and docker answers with another
  -- list later, `PostMigrate` does what `replace_docker` does for some list of containers, and the members of that list are
  -- exactly the containers that docker listed first and does not list any more.
  pub post_migrate-lost :
      (docker_rpm_name pouch_rpm_path : Str) (before after : List ContainerSummary)
      (lm : LiveMigrator) (t t' : Trace)
      → lm.all_containers ≡ []
      → host.docker_container_list (docker_container_list ∷ t) ≡ ok before
      → (pre_migrate host lm t).0 ≡ ok tt
      → host.docker_container_list (docker_container_list ∷ t') ≡ ok after
      → (lost : List Str) × ((
        (post_migrate host docker_rpm_name pouch_rpm_path (pre_migrate host lm t).1 t').0,
        (post_migrate host docker_rpm_name pouch_rpm_path (pre_migrate host lm t).1 t').2,
      )
          ≡ replace_docker host docker_rpm_name pouch_rpm_path lost (docker_container_list ∷ t'))
        × ((k : Str) → member k lost ≡ (member k (ids before) && not (member k (ids after))))
  unfolding lookup
  post_migrate-lost docker_rpm_name pouch_rpm_path before after lm t t' new listed h listed' =
      let lm' : LiveMigrator = (pre_migrate host lm t).1 in
      let noted : Tracked before lm lm' = pre_migrate-Tracked before lm t listed h in
      (
        deleted_of (mark_existing after lm'.all_containers),
        post_migrate-replace docker_rpm_name pouch_rpm_path after lm' t' listed',
        λ k.
            let keyed = noted.keyed (rw new tt) in
            ground
              (arith, new, deleted_of-mark_existing after lm'.all_containers k keyed, noted.all k),
      )
