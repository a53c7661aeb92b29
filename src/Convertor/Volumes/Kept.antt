-- ===== src/Convertor/Volumes/Kept.antt =====
-- pouch/convertor/volumes.go: which volumes `ToVolumes` gives.
use d2p_migrator.Prelude.{
  Bool, true, ◌&&◌, List, [], ◌∷◌, ◌++◌, ◌≡◌, refl, Str, ◌==◌, str, arith, if◌then◌else◌,
  Bool-cases, inl, inr, append-nil, append_assoc,
}
use d2p_migrator.Prelude.Result.{ok, Result-cases}
use d2p_migrator.Docker
use d2p_migrator.Pouch
use d2p_migrator.Utils.{string_in_slice}
use d2p_migrator.Convertor.Volumes.{support_volume_drivers, to_volume, volumes_loop, to_volumes}
use d2p_migrator.World.{Host, Trace}

-- What is kept of a volume: its name, its driver and its mount point.
abbrev pub Entry : Type 0
Entry = Str × Str × Str

abbrev pub entry : Pouch.Volume → Entry
entry v = (v.name, v.backend, v.mount_point)

abbrev pub entries : List Pouch.Volume → List Entry
entries [] = []
entries (v ∷ vs) = entry v ∷ entries vs

-- The entries that are to come out: those of the volumes that `ultron` does not serve.
abbrev pub wanted : List Docker.Volume → List Entry
wanted [] = []
wanted (v ∷ vs) =
    let rest = wanted vs in
    if v.driver == str "ultron" then rest else (v.name, v.driver, v.mountpoint) ∷ rest

abbrev pub all_supported : List Docker.Volume → Bool
all_supported [] = true
all_supported (v ∷ vs) = string_in_slice support_volume_drivers v.driver && all_supported vs

entries-append : (vs ws : List Pouch.Volume) → entries (vs ++ ws) ≡ entries vs ++ entries ws
entries-append [] ws = refl
entries-append (v ∷ vs) ws = ground (arith, entries-append vs ws)

module _ (host : Host) where
  to_volume-entry :
      (vol : Docker.Volume) (t : Trace) (v : Pouch.Volume)
      → (to_volume host vol t).0 ≡ ok v
      → entry v ≡ (vol.name, vol.driver, vol.mountpoint)
  unfolding to_volume
  to_volume-entry vol t v h = ground (arith, h)

  volumes_loop-wanted :
      (vols : List Docker.Volume) (out : List Pouch.Volume) (t : Trace) (vs : List Pouch.Volume)
      → (volumes_loop host vols out t).0 ≡ ok vs
      → (entries vs ≡ entries out ++ wanted vols) × (all_supported vols ≡ true)
  unfolding volumes_loop
  volumes_loop-wanted [] out t vs h = (ground (arith, h, append-nil (entries out)), refl)
  volumes_loop-wanted (vol ∷ vols) out t vs h =
      elim (Bool-cases (string_in_slice support_volume_drivers vol.driver)) [
        | inr strange ↦ absurd (ground (arith, h, strange))
        | inl known ↦ elim (Bool-cases (vol.driver == str "ultron")) [
          | inl served ↦
              let next : (volumes_loop host vols out t).0 ≡ ok vs =
                ground (arith, h, known, served) in
              let (same, supported) = volumes_loop-wanted vols out t vs next in
              (ground (arith, served, same), ground (arith, known, supported))
          | inr ours ↦ elim (Result-cases (to_volume host vol t).0) [
            | inl (v, made) ↦
                let u = (to_volume host vol t).1 in
                let next : (volumes_loop host vols (out ++ v ∷ []) u).0 ≡ ok vs =
                  ground (arith, h, known, ours, made) in
                let (same, supported) = volumes_loop-wanted vols (out ++ v ∷ []) u vs next in
                (
                  ground (
                    arith,
                    ours,
                    same,
                    to_volume-entry vol t v made,
                    entries-append out (v ∷ []),
                    append_assoc (entries out) (entry v ∷ []) (wanted vols),
                  ),
                  ground (arith, known, supported),
                )
            | inr (inl (e, failed)) ↦ absurd (ground (arith, h, known, ours, failed))
            | inr (inr failed) ↦ absurd (ground (arith, h, known, ours, failed))
          ]
        ]
      ]

  -- Where `ToVolumes` succeeds, every volume has a driver that is supported, and the result holds,
  -- in order, the volumes whose driver is not `ultron`, each with its name, driver and mount point.
  pub to_volumes-wanted :
      (vols : List Docker.Volume) (t : Trace) (vs : List Pouch.Volume)
      → (to_volumes host vols t).0 ≡ ok vs
      → (entries vs ≡ wanted vols) × (all_supported vols ≡ true)
  unfolding to_volumes
  to_volumes-wanted vols t vs h = volumes_loop-wanted vols [] t vs h
