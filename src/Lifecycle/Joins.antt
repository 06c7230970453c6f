-- ===== src/Lifecycle/Joins.antt =====
-- pipeline/pipeline.c and main.c: the threads that `pipeline_start` makes can all be joined.
use vlan_tagger.Prelude.{
  ℕ, ◌+◌, ◌≤◌, ◌<◌, ◌≡◌, refl, inl, inr, Bool, true, false, List, [], ◌∷◌, some, ◌==◌,
  if◌then◌else◌, arith, pos, Bool-cases,
}
use vlan_tagger.Lifecycle.{
  node_start, pipeline_start, Joined, joined, no_thread, never, others_of, join_all,
}

-- How often a node stands in a list.
abbrev pub count : ℕ → List ℕ → ℕ
count m [] = 0
count m (t ∷ ts) = (if t == m then 1 else 0) + count m ts

others_of-some :
    (n : ℕ) (threads : List ℕ)
    → 0 < count n threads
    → (left : List ℕ) × (others_of n threads ≡ some left)
      × ((m : ℕ) → count m threads ≡ (if n == m then 1 else 0) + count m left)
others_of-some n [] h = absurd (omega arith)
others_of-some n (t ∷ threads) h = elim (Bool-cases (t == n)) [
  | inl here ↦ rw here (threads, refl, λ m. ground arith)
  | inr there ↦
      let (left, e, counts) = others_of-some n threads (ground arith) in
      rw (there, e) (t ∷ left, refl, λ m. omega (arith, counts m))
]

-- `pipeline_start` that returns 0 has made a thread for each node.
pub pipeline_start-count :
    (nodes : List ℕ) (fates : List Bool) (threads : List ℕ) (m : ℕ)
    → (pipeline_start nodes fates threads).0 ≡ pos 0
    → count m (pipeline_start nodes fates threads).1 ≡ count m nodes + count m threads
unfolding pipeline_start node_start
pipeline_start-count [] fates threads m e = omega arith
pipeline_start-count (n ∷ nodes) [] threads m e =
    omega (arith, pipeline_start-count nodes [] (n ∷ threads) m e)
pipeline_start-count (n ∷ nodes) (true ∷ fates) threads m e =
    omega (arith, pipeline_start-count nodes fates (n ∷ threads) m e)
pipeline_start-count (n ∷ nodes) (false ∷ fates) threads m e = absurd (cc)

-- What the end of the joins says of the threads: if one does not return, some thread never ends.
abbrev pub Stays : (ℕ → Bool) → Joined → Type 0
Stays returns (joined left) = Unit
Stays returns no_thread = ⊥
Stays returns never = (n : ℕ) × (returns n ≡ false)

pub join_all-Stays :
    (returns : ℕ → Bool) (nodes threads : List ℕ)
    → ((m : ℕ) → count m nodes ≤ count m threads)
    → Stays returns (join_all returns nodes threads)
unfolding join_all
join_all-Stays returns [] threads h = tt
join_all-Stays returns (n ∷ nodes) threads h =
    let itself : (n == n) ≡ true = ground arith in
    let mine : 0 < count n threads = ground (arith, h n) in
    let (left, e, counts) = others_of-some n threads mine in
    let later = join_all-Stays returns nodes left (λ m. omega (arith, h m, counts m)) in
    elim (Bool-cases (returns n)) [
      | inl ends ↦ rw (join_all, e, ends) later
      | inr stays ↦ rw (join_all, e, stays) (n, stays)
    ]
