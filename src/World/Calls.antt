-- ===== src/World/Calls.antt =====
-- Requests in the order in which they are made.
use d2p_migrator.Prelude.{ℕ, suc, Bool, List, [], ◌∷◌, ◌++◌, ◌≡◌, refl, if◌then◌else◌}
use d2p_migrator.World.Requests.{Request, Trace}

-- The trace behind some more requests, which are listed oldest first.
unfoldable pub onto : List Request → Trace → Trace
onto [] t = t
onto (r ∷ rs) t = onto rs (r ∷ t)

pub onto-append : (rs qs : List Request) (t : Trace) → onto (rs ++ qs) t ≡ onto qs (onto rs t)
unfolding onto
onto-append [] qs t = refl
onto-append (r ∷ rs) qs t = onto-append rs qs (r ∷ t)

-- How many requests of a trace are of a kind.
unfoldable pub number_of : (Request → Bool) → Trace → ℕ
number_of p [] = 0
number_of p (r ∷ t) = let rest = number_of p t in if p r then suc rest else rest

pub number_of-cons :
    (p : Request → Bool) (r : Request) (t : Trace)
    → number_of p (r ∷ t) ≡ (if p r then suc (number_of p t) else number_of p t)
unfolding number_of
number_of-cons p r t = refl
