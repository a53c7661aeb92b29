-- ===== src/Convertor/SandboxName/Form.antt =====
-- pouch/convertor/cri.go: the form of a name that matches, and what is read from it.
use d2p_migrator.Prelude.{
  ℕ, zero, suc, ◌≡◌, refl, split-cons, sym, ap, ◌∙◌, ◌↔◌, Bool, true, false, ◌&&◌, ◌||◌, not, List,
  [], ◌∷◌, ◌++◌, Str, eqb, strip_prefix, strip_prefix-append, strip_prefix-some, split, arith,
  Option-cases, join, join-split, inl, inr,
}
use d2p_migrator.Prelude.Numbers.{is_digit}
use d2p_migrator.Convertor.SandboxName.{match_groups, pod_prefix, sandbox_name_match}

abbrev pub all_digits : Str → Bool
all_digits [] = true
all_digits (c ∷ s) = is_digit c && all_digits s

abbrev pub no_underscore : Str → Bool
no_underscore [] = true
no_underscore (c ∷ s) = not (eqb c b'_') && no_underscore s

abbrev pub filled : Str → Bool
filled [] = false
filled (_ ∷ _) = true

abbrev pub is_part : Str → Bool
is_part s = filled s && no_underscore s

abbrev pub is_number : Str → Bool
is_number s = filled s && all_digits s

-- The parts of what follows the prefix, and whether the first has a character already.
abbrev groups : ℕ → Bool → List Str → Bool
groups n seen [] = false
groups zero seen (p ∷ []) = (seen || filled p) && all_digits p
groups zero seen (p ∷ q ∷ ps) = false
groups (suc n) seen (p ∷ ps) = (seen || filled p) && groups n false ps

is_digit_underscore : is_digit b'_' ≡ false
unfolding is_digit
is_digit_underscore = refl

match_groups-groups :
    (n : ℕ) (seen : Bool) (s : Str) → match_groups n seen s ≡ groups n seen (split b'_' s)
unfolding match_groups split
match_groups-groups zero seen [] = ground arith
match_groups-groups (suc n) seen [] = ground arith
match_groups-groups zero seen (c ∷ s) =
    let (p, ps, e) = split-cons b'_' s in
    let ih : match_groups zero true s ≡ groups zero true (p ∷ ps) =
      match_groups-groups zero true s ∙ ap (groups zero true) e in
    ground (arith, ih, e, is_digit_underscore)
match_groups-groups (suc n) seen (c ∷ s) =
    let (p, ps, e) = split-cons b'_' s in
    let ih1 : match_groups (suc n) true s ≡ groups (suc n) true (p ∷ ps) =
      match_groups-groups (suc n) true s ∙ ap (groups (suc n) true) e in
    let ih2 : match_groups n false s ≡ groups n false (p ∷ ps) =
      match_groups-groups n false s ∙ ap (groups n false) e in
    ground (arith, ih1, ih2, e)

-- `k8s_POD_<a>_<b>_<c>_<n>`
abbrev pub sandbox_name : Str → Str → Str → Str → Str
sandbox_name a b c n = pod_prefix ++ (a ++ b'_' ∷ (b ++ b'_' ∷ (c ++ b'_' ∷ n)))

-- Three parts that are not empty and have no underscore, and a number.
abbrev pub are_parts : Str → Str → Str → Str → Bool
are_parts a b c n = is_part a && is_part b && is_part c && is_number n

split-append : (a s : Str) → no_underscore a ≡ true → split b'_' (a ++ b'_' ∷ s) ≡ a ∷ split b'_' s
unfolding split
split-append [] s h = refl
split-append (c ∷ a) s h = ground (arith, split-append a s)

split-digits : (n : Str) → all_digits n ≡ true → split b'_' n ≡ n ∷ []
unfolding split is_digit
split-digits [] h = refl
split-digits (c ∷ n) h = ground (arith, split-digits n)

pub split-parts :
    (a b c n : Str)
    → are_parts a b c n ≡ true
    → split b'_' (a ++ b'_' ∷ (b ++ b'_' ∷ (c ++ b'_' ∷ n))) ≡ a ∷ b ∷ c ∷ n ∷ []
split-parts a b c n h = ground (
  arith,
  h,
  split-append a (b ++ b'_' ∷ (c ++ b'_' ∷ n)),
  split-append b (c ++ b'_' ∷ n),
  split-append c n,
  split-digits n,
)

sandbox_name_match-parts :
    (a b c n : Str) → are_parts a b c n ≡ true → sandbox_name_match (sandbox_name a b c n) ≡ true
unfolding sandbox_name_match
sandbox_name_match-parts a b c n h =
    let rest = a ++ b'_' ∷ (b ++ b'_' ∷ (c ++ b'_' ∷ n)) in
    ground (
      arith,
      h,
      strip_prefix-append pod_prefix rest,
      match_groups-groups 3 false rest,
      split-parts a b c n h,
    )

no_underscores : List Str → Bool
no_underscores [] = true
no_underscores (p ∷ ps) = no_underscore p && no_underscores ps

split-no_underscores : (s : Str) → no_underscores (split b'_' s) ≡ true
unfolding split no_underscores
split-no_underscores [] = refl
split-no_underscores (c ∷ s) =
    let (p, ps, e) = split-cons b'_' s in
    let ih : no_underscores (p ∷ ps) ≡ true = sym (ap no_underscores e) ∙ split-no_underscores s in
    ground (arith, ih, e, split-no_underscores s)

-- The four parts behind a match.
record Parts (ps : List Str) : Type 0 where
  name : Str
  namespace : Str
  uid : Str
  number : Str
  all : ps ≡ name ∷ namespace ∷ uid ∷ number ∷ []
  full : are_parts name namespace uid number ≡ true

groups-Parts : (ps : List Str) → groups 3 false ps ≡ true → no_underscores ps ≡ true → Parts ps
unfolding no_underscores
groups-Parts [] h u = absurd (ground (arith, h))
groups-Parts (a ∷ []) h u = absurd (ground (arith, h))
groups-Parts (a ∷ b ∷ []) h u = absurd (ground (arith, h))
groups-Parts (a ∷ b ∷ c ∷ []) h u = absurd (ground (arith, h))
groups-Parts (a ∷ b ∷ c ∷ d ∷ e ∷ ps) h u = absurd (ground (arith, h))
groups-Parts (a ∷ b ∷ c ∷ n ∷ []) h u = record {
  name = a;
  namespace = b;
  uid = c;
  number = n;
  all = refl;
  full = ground (arith, h, u);
}

join-parts :
    (a b c n : Str)
    → join (b'_' ∷ []) (a ∷ b ∷ c ∷ n ∷ []) ≡ a ++ b'_' ∷ (b ++ b'_' ∷ (c ++ b'_' ∷ n))
unfolding join
join-parts a b c n = refl

match-parts :
    (name : Str)
    → sandbox_name_match name ≡ true
    → (a : Str) × (b : Str) × (c : Str) × (n : Str) × (name ≡ sandbox_name a b c n)
      × (are_parts a b c n ≡ true)
unfolding sandbox_name_match
match-parts name h = elim (Option-cases (strip_prefix pod_prefix name)) [
  | inl none_left ↦ absurd (ground (arith, none_left))
  | inr (rest, left) ↦
      let parts : Parts (split b'_' rest) =
        groups-Parts (split b'_' rest) (ground (arith, left, match_groups-groups 3 false rest))
          (split-no_underscores rest) in
      let same : rest
          ≡ parts.name ++ b'_' ∷ (parts.namespace ++ b'_' ∷ (parts.uid ++ b'_' ∷ parts.number)) =
        sym (join-split b'_' rest)
        ∙ (ap (join (b'_' ∷ [])) parts.all
            ∙ join-parts parts.name parts.namespace parts.uid parts.number) in
      (
        parts.name,
        parts.namespace,
        parts.uid,
        parts.number,
        strip_prefix-some pod_prefix name rest left ∙ ap (λ s. pod_prefix ++ s) same,
        parts.full,
      )
]

-- A name matches exactly if it is `k8s_POD_`, a name, a namespace, a uid and a number, with
-- underscores between them, where the three are not empty and have no underscore, and the number is
-- not empty and has digits only.
pub sandbox_name_match-form :
    (name : Str)
    → (sandbox_name_match name ≡ true) ↔ (
        (a : Str) × (b : Str) × (c : Str) × (n : Str) × (name ≡ sandbox_name a b c n)
        × (are_parts a b c n ≡ true))
sandbox_name_match-form name = (
  match-parts name,
  λ (a, b, c, n, same, full). ap sandbox_name_match same ∙ sandbox_name_match-parts a b c n full,
)
