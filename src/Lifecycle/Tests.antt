-- ===== src/Lifecycle/Tests.antt =====
-- Threads and memory at concrete inputs.
use vlan_tagger.Prelude.{◌≡◌, refl, true, false, [], ◌∷◌, ◌==◌, some, minus_one}
use vlan_tagger.Lifecycle.{
  node_start, pipeline_start, pipeline_object, joined, never, no_thread, join_all, node_destroy,
  pipeline_destroy,
}
use vlan_tagger.Lifecycle.Frees.{own_blocks}

-- The third thread cannot be made.
two_of_three :
    pipeline_start (4 ∷ 5 ∷ 6 ∷ []) (true ∷ true ∷ false ∷ []) [] ≡ (minus_one, 5 ∷ 4 ∷ [])
unfolding pipeline_start node_start
two_of_three = refl

-- All threads are joined, where all end; a thread that does not end is waited for without end, and one
-- that was never started cannot be joined.
all_joined :
    (join_all (λ n. true) (4 ∷ 5 ∷ []) (5 ∷ 4 ∷ []) ≡ joined [])
    × (join_all (λ n. n == 4) (4 ∷ 5 ∷ []) (5 ∷ 4 ∷ []) ≡ never)
    × (join_all (λ n. true) (4 ∷ 6 ∷ []) (5 ∷ 4 ∷ []) ≡ no_thread)
unfolding join_all
all_joined = (refl, refl, refl)

-- A pipeline that were a block from `malloc` would be freed whole.
all_freed :
    pipeline_destroy true true
      (2 ∷ [])
      (4 ∷ 5 ∷ [])
      (own_blocks (2 ∷ []) (4 ∷ 5 ∷ []) (pipeline_object ∷ []))
    ≡ some []
unfolding pipeline_destroy node_destroy
all_freed = refl
