-- ===== src/Config/Valid.antt =====
-- config_parser/config_parser.c: what `validate_rules` accepts, and which code it refuses with.
use vlan_tagger.Prelude.{
  ℕ, ◌≤◌, ◌≡◌, refl, ◌⊎◌, inl, inr, true, false, List, [], ◌∷◌, arith, ltb, ℤ, pos, negsuc, All,
  Bool-cases,
}
use vlan_tagger.Config.{
  TagRule, max_vlan_id, left, right, minus, check_bounds, check_against, collide, check_collisions,
  check_tags, validate_rules,
}

-- An address, in host byte order, lies in a rule's range.
abbrev pub In : ℕ → TagRule → Type 0
In a r = (left r ≤ a) × (a ≤ right r)

abbrev pub IsOrdered : TagRule → Type 0
IsOrdered r = left r ≤ right r

-- No address lies in both ranges.
abbrev pub IsApart : TagRule → TagRule → Type 0
IsApart r s = (a : ℕ) → In a r → ¬ In a s

abbrev pub AreApart : List TagRule → Type 0
AreApart [] = Unit
AreApart (r ∷ rs) = All (IsApart r) rs × AreApart rs

abbrev pub IsVlanId : ℤ → Type 0
IsVlanId (pos n) = n ≤ max_vlan_id
IsVlanId (negsuc n) = ⊥

pub record Valid (rs : List TagRule) : Type 0 where
  pub ordered : All IsOrdered rs
  pub apart : AreApart rs
  pub tagged : All (λ r. IsVlanId r.tag) rs

check_bounds-All :
    (rs : List TagRule)
    → ((check_bounds rs ≡ pos 0) × All IsOrdered rs)
      ⊎ ((check_bounds rs ≡ minus 11) × (¬ All IsOrdered rs))
unfolding check_bounds
check_bounds-All [] = inl (refl, tt)
check_bounds-All (r ∷ rs) = ground (arith, check_bounds-All rs)

check_tags-All :
    (rs : List TagRule)
    → ((check_tags rs ≡ pos 0) × All (λ r. IsVlanId r.tag) rs)
      ⊎ ((check_tags rs ≡ minus 13) × (¬ All (λ r. IsVlanId r.tag) rs))
unfolding check_tags
check_tags-All [] = inl (refl, tt)
check_tags-All (r ∷ rs) = ground (arith, check_tags-All rs)

-- The code's test for two ranges that meet, against the addresses in them.
collide-IsApart : (r s : TagRule) → collide r s ≡ false → IsApart r s
unfolding collide
collide-IsApart r s h a x y = ground arith

collide-meets : (r s : TagRule) → IsOrdered r → IsOrdered s → collide r s ≡ true → ¬ IsApart r s
unfolding collide
collide-meets r s hr hs h apart = elim (Bool-cases (ltb (left r) (left s))) [
  | inl first ↦ apart (left s) (ground arith) (ground arith)
  | inr second ↦ apart (left r) (ground arith) (ground arith)
]

check_against-All :
    (r : TagRule) (rs : List TagRule)
    → IsOrdered r
    → All IsOrdered rs
    → ((check_against r rs ≡ pos 0) × All (IsApart r) rs)
      ⊎ ((check_against r rs ≡ minus 12) × (¬ All (IsApart r) rs))
unfolding check_against
check_against-All r [] o os = inl (refl, tt)
check_against-All r (s ∷ ss) o os = elim (Bool-cases (collide r s)) [
  | inl meet ↦ inr (rw meet, λ all. collide-meets r s o os.0 meet all.0)
  | inr miss ↦
      rw (miss, check_against)
        (elim (check_against-All r ss o os.1) [
          | inl (e, all) ↦ inl (e, (collide-IsApart r s miss, all))
          | inr (e, none_all) ↦ inr (e, λ all. none_all all.1)
        ])
]

check_collisions-AreApart :
    (rs : List TagRule)
    → All IsOrdered rs
    → ((check_collisions rs ≡ pos 0) × AreApart rs)
      ⊎ ((check_collisions rs ≡ minus 12) × (¬ AreApart rs))
unfolding check_collisions
check_collisions-AreApart [] os = inl (refl, tt)
check_collisions-AreApart (r ∷ rs) os = elim (check_against-All r rs os.0 os.1) [
  | inr (e, meets) ↦ inr (rw e, λ all. meets all.0)
  | inl (e, apart) ↦ elim (check_collisions-AreApart rs os.1) [
    | inl (f, rest) ↦ inl (rw e f, (apart, rest))
    | inr (f, not_rest) ↦ inr (rw e f, λ all. not_rest all.1)
  ]
]

-- `validate_rules` returns 0 just for valid rules, and otherwise the code of the first thing wrong:
-- -11 where some range has its bounds the wrong way round; -12 where none has, and an address lies
-- in two of the ranges; -13 where neither is so, and some tag is not a number from 0 to 4095.
pub validate_rules_cases :
    (rs : List TagRule)
    → ((validate_rules rs ≡ pos 0) × Valid rs)
      ⊎ ((validate_rules rs ≡ minus 11) × (¬ All IsOrdered rs))
      ⊎ ((validate_rules rs ≡ minus 12) × All IsOrdered rs × (¬ AreApart rs))
      ⊎ ((validate_rules rs ≡ minus 13)
          × All IsOrdered rs
          × AreApart rs
          × (¬ All (λ r. IsVlanId r.tag) rs))
unfolding validate_rules
validate_rules_cases rs = elim (check_bounds-All rs) [
  | inr (e, bad) ↦ inr (inl (rw e, bad))
  | inl (e, ordered) ↦ elim (check_collisions-AreApart rs ordered) [
    | inr (f, bad) ↦ inr (inr (inl (rw (e, f), ordered, bad)))
    | inl (f, apart) ↦ elim (check_tags-All rs) [
      | inr (g, bad) ↦ inr (inr (inr (rw (e, f, g), ordered, apart, bad)))
      | inl (g, tagged) ↦
          inl (rw (e, f, g), record { ordered = ordered; apart = apart; tagged = tagged })
    ]
  ]
]

-- What `validate_rules` accepts is valid.
pub validate_rules-Valid : (rs : List TagRule) → validate_rules rs ≡ pos 0 → Valid rs
validate_rules-Valid rs e = elim (validate_rules_cases rs) [
  | inl (f, v) ↦ v
  | inr (inl (f, bad)) ↦ absurd (cc)
  | inr (inr (inl (f, o, bad))) ↦ absurd (cc)
  | inr (inr (inr (f, o, a, bad))) ↦ absurd (cc)
]

-- Valid rules are accepted.
pub Valid-validate_rules : (rs : List TagRule) → Valid rs → validate_rules rs ≡ pos 0
Valid-validate_rules rs v = elim (validate_rules_cases rs) [
  | inl (f, w) ↦ f
  | inr (inl (f, bad)) ↦ absurd (bad v.ordered)
  | inr (inr (inl (f, o, bad))) ↦ absurd (bad v.apart)
  | inr (inr (inr (f, o, a, bad))) ↦ absurd (bad v.tagged)
]
