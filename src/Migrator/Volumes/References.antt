-- ===== src/Migrator/Volumes/References.antt =====
-- migrator/volume_migrate.go: what the references to volumes hold.
use d2p_migrator.Prelude.{
  Bool, true, false, not, ◌||◌, ◌&&◌, List, [], ◌∷◌, ◌++◌, ◌≡◌, refl, sym, ap, ◌∙◌, Str, ◌==◌, str,
  arith, strip_prefix, has_prefix, contains, join, Bool-cases, inl, inr, if◌then◌else◌, append-nil,
}
use d2p_migrator.Prelude.Dict.{Dict, insert, get_str, lookup-insert}
use d2p_migrator.Pouch
use d2p_migrator.Migrator.Volumes.{add_reference, container_volume_refs_count}

has_prefix_self : (s r : Str) → has_prefix (s ++ r) s ≡ true
unfolding has_prefix strip_prefix
has_prefix_self [] r = refl
has_prefix_self (c ∷ s) r = ground (arith, has_prefix_self s r)

has_prefix-append : (s r p : Str) → has_prefix s p ≡ true → has_prefix (s ++ r) p ≡ true
unfolding has_prefix strip_prefix
has_prefix-append s r [] h = ground arith
has_prefix-append [] r (c ∷ p) h = absurd (ground (arith, h))
has_prefix-append (d ∷ s) r (c ∷ p) h = ground (arith, has_prefix-append s r p)

-- A text that is contained is contained in any longer text, on either side.
contains-append : (s r p : Str) → contains s p ≡ true → contains (s ++ r) p ≡ true
unfolding contains
contains-append [] [] p h = h
contains-append [] (c ∷ r) p h = ground (arith, has_prefix-append [] (c ∷ r) p h)
contains-append (c ∷ s) r p h = ground (arith, contains-append s r p, has_prefix-append (c ∷ s) r p)

contains_self : (s p : Str) → contains (s ++ p) p ≡ true
unfolding contains
contains_self [] [] = ground (arith, has_prefix_self [] [])
contains_self [] (c ∷ p) = ground (arith, has_prefix_self (c ∷ p) [], append-nil (c ∷ p))
contains_self (c ∷ s) p = ground (arith, contains_self s p)

contains_behind : (s r p : Str) → contains r p ≡ true → contains (s ++ r) p ≡ true
unfolding contains
contains_behind [] r p h = h
contains_behind (c ∷ s) r p h = ground (arith, contains_behind s r p h)

get_str-insert :
    (j k v : Str) (refs : Dict Str)
    → get_str k (insert j v refs) ≡ (if j == k then v else get_str k refs)
unfolding get_str
get_str-insert j k v refs = ground (arith, lookup-insert j k v refs)

same_key : (j k : Str) (refs : Dict Str) → (j == k) ≡ true → get_str j refs ≡ get_str k refs
same_key j k refs h = ground (arith, h)

-- The two texts joined by a comma.
contains-joined :
    (s id x : Str) → contains s x ≡ true → contains (join (str ",") (s ∷ id ∷ [])) x ≡ true
unfolding join
contains-joined s id x h = contains-append s (str "," ++ id) x h

contains-joined_new : (s id : Str) → contains (join (str ",") (s ∷ id ∷ [])) id ≡ true
unfolding join
contains-joined_new s id = contains_behind s (str "," ++ id) id (contains_self (str ",") id)

contains_refl : (id : Str) → contains id id ≡ true
contains_refl id = contains_self [] id

contains-of_empty : (s id x : Str) → (s == []) ≡ true → contains s x ≡ true → contains id x ≡ true
contains-of_empty s id x e h =
    let empty : s ≡ [] = ground (arith, e) in
    contains-append [] id x (ap (λ u. contains u x) (sym empty) ∙ h)

-- The references to a volume once a container is added.
abbrev next : Str → Str → Str
next old id =
    if old == [] then id else if not (contains old id) then join (str ",") (old ∷ id ∷ []) else old

contains-next : (old id x : Str) → contains old x ≡ true → contains (next old id) x ≡ true
contains-next old id x h = elim (Bool-cases (old == [])) [
  | inl empty ↦ rw empty (contains-of_empty old id x empty h)
  | inr full ↦ elim (Bool-cases (contains old id)) [
    | inl there ↦ rw (full, there) h
    | inr missing ↦ rw (full, missing) (contains-joined old id x h)
  ]
]

contains-next_id : (old id : Str) → contains (next old id) id ≡ true
contains-next_id old id = elim (Bool-cases (old == [])) [
  | inl empty ↦ rw empty (contains_refl id)
  | inr full ↦ elim (Bool-cases (contains old id)) [
    | inl there ↦ rw (full, there) there
    | inr missing ↦ rw (full, missing) (contains-joined_new old id)
  ]
]

get_str-add_reference :
    (id : Str) (mount : Pouch.MountPoint) (refs : Dict Str) (k : Str)
    → get_str k (add_reference id mount refs) ≡ (
        if mount.driver == []
        then get_str k refs
        else if mount.name == k
        then next (get_str k refs) id
        else get_str k refs)
unfolding add_reference
get_str-add_reference id mount refs k =
    let old = get_str mount.name refs in
    elim (Bool-cases (mount.driver == [])) [
      | inl unnamed ↦ rw unnamed refl
      | inr named ↦ elim (Bool-cases (old == [])) [
        | inl empty ↦
            rw (named, empty)
              (ground
                (arith, empty, get_str-insert mount.name k id refs, same_key mount.name k refs))
        | inr full ↦ elim (Bool-cases (contains old id)) [
          | inl there ↦
              rw (named, full, there) (ground (arith, full, there, same_key mount.name k refs))
          | inr missing ↦
              rw (named, full, missing)
                (ground (
                  arith,
                  full,
                  missing,
                  get_str-insert mount.name k (join (str ",") (old ∷ id ∷ [])) refs,
                  same_key mount.name k refs,
                ))
        ]
      ]
    ]

contains-add_reference :
    (id : Str) (mount : Pouch.MountPoint) (refs : Dict Str) (k x : Str)
    → contains (get_str k refs) x ≡ true
    → contains (get_str k (add_reference id mount refs)) x ≡ true
contains-add_reference id mount refs k x h =
    ground (arith, h, get_str-add_reference id mount refs k, contains-next (get_str k refs) id x h)

-- Whether one of the mounts is of this volume, and has a driver.
abbrev pub uses : Str → List Pouch.MountPoint → Bool
uses k [] = false
uses k (m ∷ ms) = (not (m.driver == []) && (m.name == k)) || uses k ms

add_reference-id :
    (id : Str) (mount : Pouch.MountPoint) (refs : Dict Str) (k : Str)
    → (not (mount.driver == []) && (mount.name == k)) ≡ true
    → contains (get_str k (add_reference id mount refs)) id ≡ true
add_reference-id id mount refs k h =
    ground (arith, h, get_str-add_reference id mount refs k, contains-next_id (get_str k refs) id)

-- Once the mounts of a container are counted, the references to a volume still contain what they
-- contained before.
pub container_volume_refs_count-keeps :
    (id : Str) (mounts : List Pouch.MountPoint) (refs : Dict Str) (k x : Str)
    → contains (get_str k refs) x ≡ true
    → contains (get_str k (container_volume_refs_count id mounts refs)) x ≡ true
unfolding container_volume_refs_count
container_volume_refs_count-keeps id [] refs k x h = h
container_volume_refs_count-keeps id (m ∷ ms) refs k x h =
    container_volume_refs_count-keeps id ms (add_reference id m refs) k x
      (contains-add_reference id m refs k x h)

-- Once the mounts of a container are counted, the references to each volume that it mounts with a
-- driver contain the container's id.
pub container_volume_refs_count-id :
    (id : Str) (mounts : List Pouch.MountPoint) (refs : Dict Str) (k : Str)
    → uses k mounts ≡ true
    → contains (get_str k (container_volume_refs_count id mounts refs)) id ≡ true
unfolding container_volume_refs_count
container_volume_refs_count-id id [] refs k h = absurd (ground (arith, h))
container_volume_refs_count-id id (m ∷ ms) refs k h =
    elim (Bool-cases (not (m.driver == []) && (m.name == k))) [
      | inl here ↦
          container_volume_refs_count-keeps id ms (add_reference id m refs) k id
            (add_reference-id id m refs k here)
      | inr later ↦
          container_volume_refs_count-id id ms (add_reference id m refs) k
            (ground (arith, h, later))
    ]
