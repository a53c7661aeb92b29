-- ===== src/Convertor/HostConfig/Caps.antt =====
-- pouch/convertor/core.go: the capabilities that `toHostConfig` adds.
use d2p_migrator.Prelude.{
  ◌+◌, false, List, [], ◌∷◌, ◌++◌, ◌≡◌, refl, Str, dec_str, str, member, count, count-append,
  member-append, append_assoc, append-nil, if◌then◌else◌, arith, Bool-cases, inl, inr,
}
use d2p_migrator.Utils.{string_in_slice}
use d2p_migrator.Utils.Slices.{string_in_slice-member}
use d2p_migrator.Convertor.HostConfig.{add_caps, required_caps}

add_caps-extra :
    (caps cap_add : List Str) → (extra : List Str) × (add_caps caps cap_add ≡ cap_add ++ extra)
unfolding add_caps
add_caps-extra [] cap_add = ([], ground (arith, append-nil cap_add))
add_caps-extra (cap ∷ caps) cap_add = elim (Bool-cases (string_in_slice cap_add cap)) [
  | inl there ↦ let (extra, e) = add_caps-extra caps cap_add in (extra, ground (arith, there, e))
  | inr missing ↦
      let (extra, e) = add_caps-extra caps (cap_add ++ cap ∷ []) in
      (cap ∷ extra, ground (arith, missing, e, append_assoc cap_add (cap ∷ []) extra))
]

string_in_slice-full :
    (cap : Str) (caps cap_add : List Str)
    → member [] (cap ∷ caps) ≡ false
    → string_in_slice cap_add cap ≡ member cap cap_add
unfolding dec_str
string_in_slice-full [] caps cap_add full = absurd (ground (arith, full))
string_in_slice-full (c ∷ name) caps cap_add full = string_in_slice-member cap_add (c ∷ name)

count-add_caps :
    (caps cap_add : List Str) (k : Str)
    → member [] caps ≡ false
    → count k (add_caps caps cap_add)
      ≡ count k cap_add + (if member k cap_add then 0 else if member k caps then 1 else 0)
unfolding add_caps
count-add_caps [] cap_add k full = ground arith
count-add_caps (cap ∷ caps) cap_add k full = ground (
  arith,
  count-add_caps caps cap_add k,
  count-add_caps caps (cap_add ++ cap ∷ []) k,
  string_in_slice-full cap caps cap_add full,
  count-append k cap_add (cap ∷ []),
  member-append k cap_add (cap ∷ []),
)

required_caps-full : member [] required_caps ≡ false
unfolding str dec_str
required_caps-full = refl

-- The capabilities of docker are kept in front, in order, and each required capability that is not
-- among them is added exactly once; nothing else is added.
pub add_caps-required :
    (cap_add : List Str)
    → ((extra : List Str) × (add_caps required_caps cap_add ≡ cap_add ++ extra))
      × ((k : Str)
          → count k (add_caps required_caps cap_add)
            ≡ count k cap_add
              + (if member k cap_add then 0 else if member k required_caps then 1 else 0))
add_caps-required cap_add = (
  add_caps-extra required_caps cap_add,
  λ k. count-add_caps required_caps cap_add k required_caps-full,
)
