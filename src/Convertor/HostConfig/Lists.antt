-- ===== src/Convertor/HostConfig/Lists.antt =====
-- pouch/convertor/core.go: the lists of `toResources`, and when it panics.
use d2p_migrator.Prelude.{
  Bool, true, false, ◌&&◌, ◌⊎◌, inl, inr, List, [], ◌∷◌, ◌++◌, ◌≡◌, refl, sym, ap, ◌∙◌, map,
  append_assoc, append-nil, arith, Option, none, some, if◌then◌else◌, Bool-cases,
}
use d2p_migrator.Prelude.Result.{Result, ok, panic}
use d2p_migrator.Docker
use d2p_migrator.Pouch
use d2p_migrator.Convertor.HostConfig.{
  throttle_loop, to_throttle_devices, weight_loop, to_weight_device, device_loop, to_devices,
  ulimit_loop, to_ulimits, to_resources,
}

-- Whether no pointer of a slice is nil, and what the pointers that are not nil point to.
abbrev pub all_there {ℓ} : {A : Type ℓ} → List (Option A) → Bool
all_there [] = true
all_there (none ∷ xs) = false
all_there (some x ∷ xs) = all_there xs

abbrev pub there {ℓ} : {A : Type ℓ} → List (Option A) → List A
there [] = []
there (none ∷ xs) = there xs
there (some x ∷ xs) = x ∷ there xs

abbrev pub slice_filled {ℓ} : {A : Type ℓ} → Option (List (Option A)) → Bool
slice_filled none = true
slice_filled (some xs) = all_there xs

abbrev pub on_list {ℓ κ} :
    {A : Type ℓ} {B : Type κ} → (A → B) → Option (List (Option A)) → Option (List B)
on_list f none = none
on_list f (some xs) = some (map f (there xs))

abbrev pub nil_if_empty {ℓ} : {A : Type ℓ} → List A → Option (List A)
nil_if_empty [] = none
nil_if_empty (x ∷ xs) = some (x ∷ xs)

abbrev pub on_ulimits : {A B : Type 0} → (A → B) → Option (List (Option A)) → Option (List B)
on_ulimits f none = none
on_ulimits f (some xs) = nil_if_empty (map f (there xs))

abbrev pub throttle : Docker.ThrottleDevice → Pouch.ThrottleDevice
throttle d = record { path = d.path; rate = d.rate }

abbrev pub weight : Docker.WeightDevice → Pouch.WeightDevice
weight d = record { path = d.path; weight = d.weight }

abbrev pub device : Docker.DeviceMapping → Pouch.DeviceMapping
device d = record {
  cgroup_permissions = d.cgroup_permissions;
  path_in_container = d.path_in_container;
  path_on_host = d.path_on_host;
}

abbrev pub ulimit : Docker.Ulimit → Pouch.Ulimit
ulimit u = record { hard = u.hard; name = u.name; soft = u.soft }

-- A loop that appends the image of each item, and panics at a nil pointer.
appended {ℓ κ} :
    {A : Type ℓ} {B : Type κ} (f : A → B) (loop : List (Option A) → List B → Result (List B))
    → ((out : List B) → loop [] out ≡ ok out)
    → ((xs : List (Option A)) (out : List B) → loop (none ∷ xs) out ≡ panic)
    → ((x : A) (xs : List (Option A)) (out : List B)
        → loop (some x ∷ xs) out ≡ loop xs (out ++ f x ∷ []))
    → (xs : List (Option A)) (out : List B)
    → loop xs out ≡ (if all_there xs then ok (out ++ map f (there xs)) else panic)
appended f loop done nil step [] out = done out ∙ ap ok (sym (append-nil out))
appended f loop done nil step (none ∷ xs) out = nil xs out
appended f loop done nil step (some x ∷ xs) out =
    step x xs out
    ∙ (appended f loop done nil step xs (out ++ f x ∷ [])
        ∙ ap (λ ys. if all_there xs then ok ys else panic)
            (append_assoc out (f x ∷ []) (map f (there xs))))

throttle_loop-map :
    (xs : List (Option Docker.ThrottleDevice))
    → throttle_loop xs [] ≡ (if all_there xs then ok (map throttle (there xs)) else panic)
unfolding throttle_loop
throttle_loop-map xs =
    appended throttle throttle_loop (λ out. refl) (λ xs out. refl) (λ x xs out. refl) xs []

weight_loop-map :
    (xs : List (Option Docker.WeightDevice))
    → weight_loop xs [] ≡ (if all_there xs then ok (map weight (there xs)) else panic)
unfolding weight_loop
weight_loop-map xs =
    appended weight weight_loop (λ out. refl) (λ xs out. refl) (λ x xs out. refl) xs []

device_loop-map :
    (xs : List Docker.DeviceMapping) (out : List Pouch.DeviceMapping)
    → device_loop xs out ≡ out ++ map device xs
unfolding device_loop
device_loop-map [] out = sym (append-nil out)
device_loop-map (x ∷ xs) out =
    device_loop-map xs (out ++ device x ∷ []) ∙ append_assoc out (device x ∷ []) (map device xs)

ulimit_loop-some :
    (xs : List (Option Docker.Ulimit)) (out : List Pouch.Ulimit)
    → ulimit_loop xs (some out)
      ≡ (if all_there xs then ok (some (out ++ map ulimit (there xs))) else panic)
unfolding ulimit_loop
ulimit_loop-some [] out = ap (λ ys. ok (some ys)) (sym (append-nil out))
ulimit_loop-some (none ∷ xs) out = refl
ulimit_loop-some (some x ∷ xs) out =
    ulimit_loop-some xs (out ++ ulimit x ∷ [])
    ∙ ap (λ ys. if all_there xs then ok (some ys) else panic)
        (append_assoc out (ulimit x ∷ []) (map ulimit (there xs)))

to_throttle_devices-map :
    (xs : Option (List (Option Docker.ThrottleDevice)))
    → to_throttle_devices xs ≡ (if slice_filled xs then ok (on_list throttle xs) else panic)
unfolding to_throttle_devices
to_throttle_devices-map none = refl
to_throttle_devices-map (some xs) = ground (arith, throttle_loop-map xs)

to_weight_device-map :
    (xs : Option (List (Option Docker.WeightDevice)))
    → to_weight_device xs ≡ (if slice_filled xs then ok (on_list weight xs) else panic)
unfolding to_weight_device
to_weight_device-map none = refl
to_weight_device-map (some xs) = ground (arith, weight_loop-map xs)

to_devices-map : (xs : List Docker.DeviceMapping) → to_devices xs ≡ ok (some (map device xs))
unfolding to_devices
to_devices-map xs = ap (λ ys. ok (some ys)) (device_loop-map xs [])

to_ulimits-map :
    (xs : Option (List (Option Docker.Ulimit)))
    → to_ulimits xs ≡ (if slice_filled xs then ok (on_ulimits ulimit xs) else panic)
unfolding to_ulimits ulimit_loop
to_ulimits-map none = refl
to_ulimits-map (some []) = refl
to_ulimits-map (some (none ∷ xs)) = refl
to_ulimits-map (some (some x ∷ xs)) = ulimit_loop-some xs (ulimit x ∷ [])

-- The lists of a result: docker's with each item converted, in order. Of the slices of pointers, a nil slice stays nil; an
-- empty slice of limits becomes nil, and the slice of devices is never nil.
pub record Devices (r : Docker.Resources) (p : Pouch.Resources) : Type 0 where
  pub weights : p.blkio_weight_device ≡ on_list weight r.blkio_weight_device
  pub read_bps : p.blkio_device_read_bps ≡ on_list throttle r.blkio_device_read_bps
  pub read_iops : p.blkio_device_read_iops ≡ on_list throttle r.blkio_device_read_iops
  pub write_bps : p.blkio_device_write_bps ≡ on_list throttle r.blkio_device_write_bps
  pub write_iops : p.blkio_device_write_iops ≡ on_list throttle r.blkio_device_write_iops
  pub devices : p.devices ≡ some (map device r.devices)
  pub ulimits : p.ulimits ≡ on_ulimits ulimit r.ulimits

-- No pointer in the lists is nil.
abbrev pub filled : Docker.Resources → Bool
filled r =
    slice_filled r.blkio_weight_device
    && (slice_filled r.blkio_device_read_bps
        && (slice_filled r.blkio_device_read_iops
            && (slice_filled r.blkio_device_write_bps
                && (slice_filled r.blkio_device_write_iops && slice_filled r.ulimits))))

-- `toResources` panics exactly if a pointer in one of its lists is nil, and fails in no other way. Otherwise each of
-- its seven lists is the list of docker with every item converted, in order, and no list takes the place of another. A nil
-- slice of block devices stays nil, a slice of limits becomes nil exactly if docker's has no item, and the slice of devices is never nil.
pub to_resources-Devices :
    (r : Docker.Resources)
    → ((p : Pouch.Resources) × (to_resources r ≡ ok p) × (filled r ≡ true) × Devices r p)
      ⊎ ((to_resources r ≡ panic) × (filled r ≡ false))
unfolding to_resources
to_resources-Devices r =
    let weights = to_weight_device-map r.blkio_weight_device in
    let read_bps = to_throttle_devices-map r.blkio_device_read_bps in
    let read_iops = to_throttle_devices-map r.blkio_device_read_iops in
    let write_bps = to_throttle_devices-map r.blkio_device_write_bps in
    let write_iops = to_throttle_devices-map r.blkio_device_write_iops in
    let ulimits = to_ulimits-map r.ulimits in
    elim (Bool-cases (filled r)) [
      | inl all ↦
          let weights' : to_weight_device r.blkio_weight_device
              ≡ ok (on_list weight r.blkio_weight_device) =
            ground (arith, all, weights) in
          let read_bps' : to_throttle_devices r.blkio_device_read_bps
              ≡ ok (on_list throttle r.blkio_device_read_bps) =
            ground (arith, all, read_bps) in
          let read_iops' : to_throttle_devices r.blkio_device_read_iops
              ≡ ok (on_list throttle r.blkio_device_read_iops) =
            ground (arith, all, read_iops) in
          let write_bps' : to_throttle_devices r.blkio_device_write_bps
              ≡ ok (on_list throttle r.blkio_device_write_bps) =
            ground (arith, all, write_bps) in
          let write_iops' : to_throttle_devices r.blkio_device_write_iops
              ≡ ok (on_list throttle r.blkio_device_write_iops) =
            ground (arith, all, write_iops) in
          let ulimits' : to_ulimits r.ulimits ≡ ok (on_ulimits ulimit r.ulimits) =
            ground (arith, all, ulimits) in
          rw
            (
              weights',
              read_bps',
              read_iops',
              write_bps',
              write_iops',
              to_devices-map r.devices,
              ulimits',
            )
            (inl (
              _,
              refl,
              all,
              record {
                weights = refl;
                read_bps = refl;
                read_iops = refl;
                write_bps = refl;
                write_iops = refl;
                devices = refl;
                ulimits = refl;
              },
            ))
      | inr missing ↦ inr (
        ground (
          arith,
          missing,
          weights,
          read_bps,
          read_iops,
          write_bps,
          write_iops,
          to_devices-map r.devices,
          ulimits,
        ),
        missing,
      )
    ]
