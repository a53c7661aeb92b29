-- ===== src/Convertor/Container/Labels.antt =====
-- pouch/convertor/core.go: how `ToPouchContainerMeta` marks sandboxes and their containers.
use d2p_migrator.Prelude.{
  true, false, ◌≡◌, refl, Option, some, Str, ◌==◌, dec_str, str, if◌then◌else◌, arith,
}
use d2p_migrator.Prelude.Dict.{Dict, lookup, get_str, lookup-insert}
use d2p_migrator.Pouch
use d2p_migrator.Convertor.SandboxName.{sandbox_name_match}
use d2p_migrator.Convertor.Container.{
  mark_sandbox, mark_container, pouch_container_type_label_key, docker_container_type_label_key,
  pouch_container_type_label_sandbox, pouch_container_type_label_container,
}

keys-apart : (pouch_container_type_label_key == docker_container_type_label_key) ≡ false
unfolding str dec_str
keys-apart = refl

-- The type that pouch's label gets, where it gets one.
abbrev pub type_label : Str → Dict Str → Option Str
type_label name labels =
    if get_str docker_container_type_label_key labels == pouch_container_type_label_container
    then some pouch_container_type_label_container
    else if sandbox_name_match name
    then some pouch_container_type_label_sandbox
    else lookup pouch_container_type_label_key labels

get_str-mark_sandbox :
    (name : Str) (config : Pouch.ContainerConfig)
    → get_str docker_container_type_label_key (mark_sandbox name config).labels
      ≡ get_str docker_container_type_label_key config.labels
unfolding mark_sandbox get_str
get_str-mark_sandbox name config = ground (
  arith,
  lookup-insert pouch_container_type_label_key docker_container_type_label_key
      pouch_container_type_label_sandbox config.labels,
  keys-apart,
)

lookup-mark_sandbox :
    (name : Str) (config : Pouch.ContainerConfig) (k : Str)
    → lookup k (mark_sandbox name config).labels ≡ (
        if sandbox_name_match name
        then (if pouch_container_type_label_key == k
            then some pouch_container_type_label_sandbox
            else lookup k config.labels)
        else lookup k config.labels)
unfolding mark_sandbox
lookup-mark_sandbox name config k = ground (
  arith,
  lookup-insert pouch_container_type_label_key k pouch_container_type_label_sandbox config.labels,
)

lookup-mark_container :
    (config : Pouch.ContainerConfig) (k : Str)
    → lookup k (mark_container config).labels ≡ (
        if get_str docker_container_type_label_key config.labels
          == pouch_container_type_label_container
        then (if pouch_container_type_label_key == k
            then some pouch_container_type_label_container
            else lookup k config.labels)
        else lookup k config.labels)
unfolding mark_container
lookup-mark_container config k = ground (
  arith,
  lookup-insert pouch_container_type_label_key k pouch_container_type_label_container config.labels,
)

same_key :
    {V : Type 0} (j k : Str) (dict : Dict V) → (j == k) ≡ true → lookup j dict ≡ lookup k dict
same_key j k dict h = ground (arith, h)

-- Of the labels, at most the one with pouch's type changes: to `container` where docker's type is
-- `container`, otherwise to `sandbox` where the name is a sandbox's.
pub lookup-mark :
    (name : Str) (config : Pouch.ContainerConfig) (k : Str)
    → lookup k (mark_container (mark_sandbox name config)).labels ≡ (
        if pouch_container_type_label_key == k
        then type_label name config.labels
        else lookup k config.labels)
lookup-mark name config k =
    rw (lookup-mark_container, get_str-mark_sandbox, lookup-mark_sandbox)
      (ground (arith, same_key pouch_container_type_label_key k config.labels))

pub mark-env :
    (name : Str) (config : Pouch.ContainerConfig)
    → ((mark_container (mark_sandbox name config)).env ≡ config.env)
      × ((mark_container (mark_sandbox name config)).quota_id ≡ config.quota_id)
      × ((mark_container (mark_sandbox name config)).image ≡ config.image)
unfolding mark_container mark_sandbox
mark-env name config = (ground arith, ground arith, ground arith)
