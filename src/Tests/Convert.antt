-- ===== src/Tests/Convert.antt =====
-- The conversion of containers and of sandboxes' names, on the sample container.
use d2p_migrator.Prelude.{
  ◌+◌, ◌≤◌, true, false, not, ◌&&◌, ◌||◌, List, [], ◌∷◌, ◌++◌, ◌≡◌, ◌≢◌, ◌↔◌, ◌⊎◌, refl, none, some,
  Str, str, ltb, if◌then◌else◌, ◌==◌, count, member,
}
use d2p_migrator.Prelude.Dict.{Dict, lookup}
use d2p_migrator.Prelude.Numbers.{max_u32}
use d2p_migrator.Prelude.Result.{Error, ok, err, panic, is_ok, errorf}
use d2p_migrator.Docker
use d2p_migrator.Pouch
use d2p_migrator.Convertor.Config.{parse_env}
use d2p_migrator.Convertor.Config.Env.{last_entry, lookup-parse_env, parse_env-member}
use d2p_migrator.Convertor.Container.{
  to_pouch_container_meta, set_run_mode, run_mode, mark_sandbox, mark_container,
  pouch_container_type_label_key,
}
use d2p_migrator.Convertor.Container.RunMode.{Rewritten, set_run_mode-Rewritten}
use d2p_migrator.Convertor.Container.Labels.{type_label, lookup-mark}
use d2p_migrator.Convertor.Container.Fields.{Converted}
use d2p_migrator.Convertor.Container.Laws.{
  is_some, is_panic, readable, to_pouch_container_meta-outcome, to_pouch_container_meta-Converted,
}
use d2p_migrator.Convertor.HostConfig.{add_caps, required_caps, to_resources}
use d2p_migrator.Convertor.HostConfig.Caps.{add_caps-required}
use d2p_migrator.Convertor.HostConfig.Lists.{Devices, filled, to_resources-Devices}
use d2p_migrator.Convertor.SandboxName.{
  sandbox_name_match, get_pod_sandbox_metadata_by_sandbox_name,
}
use d2p_migrator.Convertor.SandboxName.Form.{are_parts, sandbox_name, sandbox_name_match-form}
use d2p_migrator.Convertor.SandboxName.Metadata.{
  value, too_large, metadata-sandbox_name, metadata-safe,
}
use d2p_migrator.Tests.Samples.{host, host_config, config, state, container, resources}
use d2p_migrator.Tests.Everything.{everything}

add_caps-required_run :
    ((extra : List Str) × (add_caps required_caps (str "NET_ADMIN" ∷ [])
        ≡ (str "NET_ADMIN" ∷ []) ++ extra))
    × ((k : Str)
        → count k (add_caps required_caps (str "NET_ADMIN" ∷ []))
          ≡ count k (str "NET_ADMIN" ∷ [])
            + (if member k (str "NET_ADMIN" ∷ [])
                then 0
                else if member k required_caps
                then 1
                else 0))
add_caps-required_run = add_caps-required (str "NET_ADMIN" ∷ [])

to_resources-Devices_example :
    ((p : Pouch.Resources) × (to_resources resources ≡ ok p)
      × (filled resources ≡ true)
      × Devices resources p)
    ⊎ ((to_resources resources ≡ panic) × (filled resources ≡ false))
to_resources-Devices_example = to_resources-Devices resources

-- A nil pointer in a list.
abbrev torn : Docker.Resources
torn = record resources { ulimits = some (none ∷ []) }

torn_panics : to_resources torn ≡ panic
unfolding everything
torn_panics = refl

abbrev env : List Str
env = str "A=1" ∷ str "ali_run_mode=container" ∷ str "B=2=3" ∷ []

abbrev envs : Dict Str
envs = (str "A", str "1") ∷ (str "ali_run_mode", str "container") ∷ []

parsed : parse_env env ≡ ok envs
unfolding everything
parsed = refl

lookup-parse_env_run :
    (m : Dict Str) × (parse_env env ≡ ok m) × (lookup (str "A") m ≡ last_entry (str "A") none env)
lookup-parse_env_run = lookup-parse_env env (str "A")

found : lookup (str "A") envs ≡ some (str "1")
unfolding everything
found = refl

parse_env-member_run : member (str "A" ++ b'=' ∷ str "1") env ≡ true
parse_env-member_run = parse_env-member env envs (str "A") (str "1") parsed found

set_run_mode-Rewritten_example :
    Rewritten (lookup run_mode envs) env (set_run_mode (lookup run_mode envs) env)
set_run_mode-Rewritten_example = set_run_mode-Rewritten env envs parsed

run_mode_test :
    set_run_mode (lookup run_mode envs) env ≡ str "A=1" ∷ str "ali_run_mode=vm" ∷ str "B=2=3" ∷ []
unfolding everything
run_mode_test = refl

abbrev plain_config : Pouch.ContainerConfig
plain_config = record {
  hostname = [];
  domainname = [];
  user = [];
  attach_stdin = false;
  attach_stdout = false;
  attach_stderr = false;
  tty = false;
  cmd = [];
  entrypoint = [];
  env = env;
  image = str "pause";
  labels = (str "io.kubernetes.docker.type", str "container") ∷ [];
  mac_address = [];
  network_disabled = false;
  on_build = [];
  open_stdin = false;
  shell = [];
  stop_signal = [];
  working_dir = [];
  volumes = [];
  quota_id = [];
  spec_annotation = none;
}

lookup-mark_example :
    lookup pouch_container_type_label_key
      (mark_container (mark_sandbox (str "web") plain_config)).labels
    ≡ (if pouch_container_type_label_key == pouch_container_type_label_key
        then type_label (str "web") plain_config.labels
        else lookup pouch_container_type_label_key plain_config.labels)
lookup-mark_example = lookup-mark (str "web") plain_config pouch_container_type_label_key

to_pouch_container_meta-outcome_example :
    (is_ok (to_pouch_container_meta host.to_utc (container (str "c1"))) ≡ (
      is_some (container (str "c1")).state
      && (is_some (container (str "c1")).config && readable (container (str "c1")))))
    × (is_panic (to_pouch_container_meta host.to_utc (container (str "c1"))) ≡ (
        not (is_some (container (str "c1")).state)
        || (is_some (container (str "c1")).config && not (readable (container (str "c1"))))))
to_pouch_container_meta-outcome_example =
    to_pouch_container_meta-outcome host.to_utc (container (str "c1"))

to_pouch_container_meta-Converted_example :
    (c : Pouch.Container) × (to_pouch_container_meta host.to_utc (container (str "c1")) ≡ ok c)
    × Converted host.to_utc (container (str "c1")) state config host_config c
to_pouch_container_meta-Converted_example =
    to_pouch_container_meta-Converted host.to_utc (container (str "c1")) state config host_config
      refl refl refl refl refl

abbrev pod : Str
pod = str "k8s_POD_web_default_uid_12"

sandbox_name_match-form_example : (sandbox_name_match pod ≡ true) ↔ (
    (a : Str) × (b : Str) × (c : Str) × (n : Str) × (pod ≡ sandbox_name a b c n)
    × (are_parts a b c n ≡ true))
sandbox_name_match-form_example = sandbox_name_match-form pod

full : are_parts (str "web") (str "default") (str "uid") (str "12") ≡ true
unfolding everything
full = refl

metadata-sandbox_name_example :
    get_pod_sandbox_metadata_by_sandbox_name
      (sandbox_name (str "web") (str "default") (str "uid") (str "12"))
    ≡ (if ltb max_u32 (value (str "12") 0)
        then errorf
            (too_large (sandbox_name (str "web") (str "default") (str "uid") (str "12")) (str "12"))
        else ok (record {
          name = str "web";
          namespace = str "default";
          uid = str "uid";
          attempt = value (str "12") 0;
        }))
metadata-sandbox_name_example =
    metadata-sandbox_name (str "web") (str "default") (str "uid") (str "12") full

metadata-safe_example :
    (get_pod_sandbox_metadata_by_sandbox_name pod ≢ panic)
    × (((e : Error) × (get_pod_sandbox_metadata_by_sandbox_name pod ≡ err e))
        ⊎ ((m : Pouch.PodSandboxMetadata) × (n : Str) × (get_pod_sandbox_metadata_by_sandbox_name
                pod
              ≡ ok m)
            × (pod ≡ sandbox_name m.name m.namespace m.uid n)
            × (m.attempt ≤ max_u32)))
metadata-safe_example = metadata-safe pod
