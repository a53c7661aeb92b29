-- ===== src/Convertor/SandboxName.antt =====
-- pouch/convertor/cri.go: the names of sandbox containers, `k8s_POD_<name>_<namespace>_<uid>_<n>`.
pub mod Form
pub mod Metadata
use d2p_migrator.Prelude.{
  ℕ, zero, suc, Bool, true, false, ◌&&◌, List, [], ◌∷◌, ◌++◌, none, some, Str, eqb, if◌then◌else◌,
  str, strip_prefix, split, get_elem?, not,
}
use d2p_migrator.Prelude.Numbers.{is_digit, parse_uint32}
use d2p_migrator.Pouch.{PodSandboxMetadata}
use d2p_migrator.Prelude.Result.{Result, errorf, deref, wrap, ok, ◌>>=◌, quoted}

-- The part `([^_]+_){3}[0-9]+$` of the regular expression, with the groups that are left to match
-- and whether the current run has a character.
unfoldable pub match_groups : ℕ → Bool → Str → Bool
match_groups zero seen [] = seen
match_groups zero seen (c ∷ s) = let more = match_groups zero true s in is_digit c && more
match_groups (suc n) seen [] = false
match_groups (suc n) seen (c ∷ s) =
    let next = match_groups n false s in
    let more = match_groups (suc n) true s in
    if eqb c b'_' then (if seen then next else false) else more

abbrev pub pod_prefix : Str
pod_prefix = str "k8s_POD_"

-- `SandboxNameRegex.Match`
unfoldable pub sandbox_name_match : Str → Bool
sandbox_name_match name = elim (strip_prefix pod_prefix name) [
  | none ↦ false
  | some rest ↦ match_groups 3 false rest
]

abbrev regexp_text : Str
regexp_text = str "^k8s_POD_([^_]+_){3}[0-9]+$"

-- The body behind the test of the name.
metadata_of_parts : Str → List Str → Result PodSandboxMetadata
metadata_of_parts sandbox parts = do
  number ← deref (get_elem? parts 5)
  attempt ←
      wrap (str "failed to parse the attempt times in sandbox name: " ++ quoted sandbox ++ str ": ")
        (parse_uint32 number)
  name ← deref (get_elem? parts 2)
  namespace ← deref (get_elem? parts 3)
  uid ← deref (get_elem? parts 4)
  ok (record { name = name; uid = uid; namespace = namespace; attempt = attempt })

-- `getPodSandboxMetadataBySandboxName`
unfoldable pub get_pod_sandbox_metadata_by_sandbox_name : Str → Result PodSandboxMetadata
unfolding metadata_of_parts
get_pod_sandbox_metadata_by_sandbox_name name =
    if not (sandbox_name_match name)
    then errorf (str "name " ++ name ++ str " not match k8s sandbox name regexp " ++ regexp_text)
    else metadata_of_parts name (split b'_' name)
