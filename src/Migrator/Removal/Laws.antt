-- ===== src/Migrator/Removal/Laws.antt =====
-- migrator/cold_migrate.go and migrator/live_migrate.go: which containers count as deleted, and what
-- is asked of pouch for them.
use d2p_migrator.Prelude.{
  Bool, true, false, not, ◌&&◌, List, [], ◌∷◌, ◌≡◌, refl, ◌∙◌, Option, some, Str, member, arith,
  inl, inr, Bool-cases,
}
use d2p_migrator.Prelude.Dict.{
  Dict, lookup, insert, has, NodupKeys, insert-NodupKeys, lookup-insert, has-lookup,
}
use d2p_migrator.Prelude.Result.{ok}
use d2p_migrator.Docker.{ContainerSummary, ids}
use d2p_migrator.Migrator.Removal.{mark_existing, deleted_of, remove_all}
use d2p_migrator.World.{Host, Trace, Request, pouch_container_remove}
use d2p_migrator.World.Calls.{onto}

abbrev pub is_unmarked : Option Bool → Bool
is_unmarked (some false) = true
is_unmarked _ = false

mark_existing-NodupKeys :
    (cs : List ContainerSummary) (all : Dict Bool)
    → NodupKeys all
    → NodupKeys (mark_existing cs all)
unfolding mark_existing
mark_existing-NodupKeys [] all u = u
mark_existing-NodupKeys (c ∷ cs) all u = elim (Bool-cases (has c.id all)) [
  | inl known ↦
      rw (known, mark_existing)
        (mark_existing-NodupKeys cs (insert c.id true all) (insert-NodupKeys c.id true all u))
  | inr unknown ↦ rw (unknown, mark_existing) (mark_existing-NodupKeys cs all u)
]

is_unmarked-mark_existing :
    (cs : List ContainerSummary) (all : Dict Bool) (k : Str)
    → is_unmarked (lookup k (mark_existing cs all))
      ≡ (is_unmarked (lookup k all) && not (member k (ids cs)))
unfolding mark_existing
is_unmarked-mark_existing [] all k = ground arith
is_unmarked-mark_existing (c ∷ cs) all k = ground (
  arith,
  is_unmarked-mark_existing cs (insert c.id true all) k,
  is_unmarked-mark_existing cs all k,
  lookup-insert c.id k true all,
  has-lookup c.id all,
)

member-deleted_of :
    (all : Dict Bool) (k : Str)
    → NodupKeys all
    → member k (deleted_of all) ≡ is_unmarked (lookup k all)
unfolding deleted_of lookup
member-deleted_of [] k u = refl
member-deleted_of ((j, exists) ∷ all) k (fresh, u) =
    ground (arith, member-deleted_of all k u, fresh)

-- A container counts as deleted exactly if it was noted, as every container is at first, and docker
-- does not list it any more.
pub deleted_of-mark_existing :
    (cs : List ContainerSummary) (all : Dict Bool) (k : Str)
    → NodupKeys all
    → member k (deleted_of (mark_existing cs all))
      ≡ (is_unmarked (lookup k all) && not (member k (ids cs)))
deleted_of-mark_existing cs all k u =
    member-deleted_of (mark_existing cs all) k (mark_existing-NodupKeys cs all u)
    ∙ is_unmarked-mark_existing cs all k

abbrev pub remove_requests : List Str → List Request
remove_requests [] = []
remove_requests (c ∷ cs) = pouch_container_remove c true ∷ remove_requests cs

module _ (host : Host) where
  -- Where the removals succeed, each container was asked to be removed, in order and by force.
  pub remove_all-onto :
      (cs : List Str) (t : Trace)
      → (remove_all host cs t).0 ≡ ok tt
      → (remove_all host cs t).1 ≡ onto (remove_requests cs) t
  unfolding remove_all onto
  remove_all-onto [] t h = refl
  remove_all-onto (c ∷ cs) t h =
      ground (arith, remove_all-onto cs (pouch_container_remove c true ∷ t))
