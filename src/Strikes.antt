-- ===== src/Strikes.antt =====
-- The error counters of nodes/src/sniffer_node.c and nodes/src/sender_node.c. Both loops allow three
-- failures in a row and end at the fourth.
use vlan_tagger.Prelude.{
  replicate, Bool-cases, ◌∙◌, ℕ, suc, ◌+◌, ◌≤◌, ◌≡◌, refl, ◌↔◌, ◌⊎◌, inl, inr, Bool, true, false,
  List, [], ◌∷◌, ◌++◌, leb, if◌then◌else◌, arith,
}

-- What the counter makes of a list of outcomes, `true` for a failure, from `k` failures in a row on.
abbrev pub gives_up : ℕ → List Bool → Bool
gives_up k [] = false
gives_up k (true ∷ os) = if leb 3 k then true else gives_up (k + 1) os
gives_up k (false ∷ os) = gives_up 0 os

-- Four failures in a row.
abbrev pub FourFailures : List Bool → Type 0
FourFailures os = (before after : List Bool) × (os ≡ before ++ true ∷ true ∷ true ∷ true ∷ after)

-- The counter gave up because of the failures that it had to see yet, or because of four later ones.
gives_up-fails :
    (os : List Bool) (k : ℕ)
    → k ≤ 3
    → gives_up k os ≡ true
    → ((m : ℕ) × (m + k ≡ 4) × (after : List Bool) × (os ≡ replicate m true ++ after))
      ⊎ FourFailures os
gives_up-fails [] k small e = absurd (cc)
gives_up-fails (false ∷ os) k small e = elim (gives_up-fails os 0 (omega arith) e) [
  | inl (m, four, after, same) ↦
      let m_eq : m ≡ 4 = omega arith in inr (false ∷ [], after, rw (same, m_eq))
  | inr (before, after, same) ↦ inr (false ∷ before, after, rw same)
]
gives_up-fails (true ∷ os) k small e = elim (Bool-cases (leb 3 k)) [
  | inl last ↦ inl (1, ground arith, os, refl)
  | inr more ↦ elim (gives_up-fails os (k + 1) (ground arith) (rw more at e)) [
    | inl (m, four, after, same) ↦ inl (suc m, omega arith, after, rw same)
    | inr (before, after, same) ↦ inr (true ∷ before, after, rw same)
  ]
]

fails-gives_up :
    (before after : List Bool) (k : ℕ)
    → k ≤ 3
    → gives_up k (before ++ true ∷ true ∷ true ∷ true ∷ after) ≡ true
fails-gives_up [] after k small = ground arith
fails-gives_up (false ∷ before) after k small = fails-gives_up before after 0 (omega arith)
fails-gives_up (true ∷ before) after k small = elim (Bool-cases (leb 3 k)) [
  | inl last ↦ rw last
  | inr more ↦ rw more (fails-gives_up before after (k + 1) (ground arith))
]

-- From the start on, the counter gives up just where four failures stand in a row.
pub gives_up_iff : (os : List Bool) → (gives_up 0 os ≡ true) ↔ FourFailures os
gives_up_iff os = (
  λ e. elim (gives_up-fails os 0 (omega arith) e) [
    | inl (m, four, after, same) ↦ let m_eq : m ≡ 4 = omega arith in ([], after, same ∙ rw m_eq)
    | inr found ↦ found
  ],
  λ found. rw found.2 (fails-gives_up found.0 found.1 0 (omega arith)),
)
