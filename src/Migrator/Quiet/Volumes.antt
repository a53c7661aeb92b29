-- ===== src/Migrator/Quiet/Volumes.antt =====
-- migrator/volume_migrate.go and pouch/convertor/volumes.go: the conversion and the store of volumes.
use d2p_migrator.Prelude.{Bool, true, false, List, [], ◌∷◌, ◌≡◌, refl, Str, arith}
use d2p_migrator.Prelude.Dict.{Dict}
use d2p_migrator.Docker
use d2p_migrator.Pouch
use d2p_migrator.Convertor.Volumes.{to_volume, volumes_loop, to_volumes}
use d2p_migrator.Migrator.Quiet.{is_storage}
use d2p_migrator.Migrator.Disk.{ensure_dir}
use d2p_migrator.Migrator.Volumes.{
  update_volumes, new_volume_store, create_volumes, prepare_volumes,
}
use d2p_migrator.World.{Host, Request, Trace}
use d2p_migrator.World.Calls.{number_of}

module _ (host : Host) (p : Request → Bool)
    (quiet : (r : Request) → is_storage r ≡ true → p r ≡ false) where
  number_of-to_volume :
      (vol : Docker.Volume) (t : Trace) → number_of p (to_volume host vol t).1 ≡ number_of p t
  unfolding to_volume number_of
  number_of-to_volume vol t = grind (arith, quiet)

  number_of-volumes_loop :
      (vols : List Docker.Volume) (out : List Pouch.Volume) (t : Trace)
      → number_of p (volumes_loop host vols out t).1 ≡ number_of p t
  unfolding volumes_loop
  number_of-volumes_loop [] out t = refl
  number_of-volumes_loop (vol ∷ vols) out t =
      grind
        (arith, number_of-to_volume, number_of-volumes_loop vols, number_of-volumes_loop vols out t)

  pub number_of-to_volumes :
      (vols : List Docker.Volume) (t : Trace)
      → number_of p (to_volumes host vols t).1 ≡ number_of p t
  unfolding to_volumes
  number_of-to_volumes vols t = number_of-volumes_loop vols [] t

  number_of-update_volumes :
      (refs : Dict Str) (vols : List Pouch.Volume) (t : Trace)
      → number_of p (update_volumes host refs vols t).1 ≡ number_of p t
  unfolding update_volumes number_of
  number_of-update_volumes refs [] t = refl
  number_of-update_volumes refs (vol ∷ vols) t =
      grind (arith, quiet, number_of-update_volumes refs vols)

  number_of-create_volumes :
      (dir : Str) (vols : List Pouch.Volume) (t : Trace)
      → number_of p (create_volumes host dir vols t).1 ≡ number_of p t
  unfolding create_volumes number_of
  number_of-create_volumes dir [] t = refl
  number_of-create_volumes dir (vol ∷ vols) t =
      grind (arith, quiet, number_of-create_volumes dir vols)

  number_of-new_volume_store :
      (dir : Str) (t : Trace) → number_of p (new_volume_store host dir t).1 ≡ number_of p t
  unfolding new_volume_store ensure_dir number_of
  number_of-new_volume_store dir t = grind (arith, quiet)

  pub number_of-prepare_volumes :
      (home : Str) (vols : List Pouch.Volume) (refs : Dict Str) (t : Trace)
      → number_of p (prepare_volumes host home vols refs t).1 ≡ number_of p t
  unfolding prepare_volumes number_of
  number_of-prepare_volumes home vols refs t =
      grind (
        arith, quiet, number_of-new_volume_store, number_of-update_volumes,
        number_of-create_volumes,
      )
