-- ===== src/Lifecycle/Frees.antt =====
-- pipeline/pipeline.c: what `pipeline_destroy` frees.
use vlan_tagger.Prelude.{
  ℕ, ◌≡◌, refl, inl, inr, All, Bool, true, false, List, [], ◌∷◌, ◌++◌, Option, none, some, ◌==◌,
  arith, Bool-cases,
}
use vlan_tagger.Frame.{◌>>=◌}
use vlan_tagger.Lifecycle.{
  Block, queue_block, node_block, outputs_block, nodes_array, queues_array, pipeline_object,
  same_block, free, free_queues, node_destroy, free_nodes, free_set, pipeline_destroy,
}

-- The blocks of a pipeline's queues and nodes.
abbrev pub queue_blocks : List ℕ → List Block
queue_blocks [] = []
queue_blocks (q ∷ queues) = queue_block q ∷ queue_blocks queues

abbrev pub node_blocks : List ℕ → List Block
node_blocks [] = []
node_blocks (n ∷ nodes) = outputs_block n ∷ node_block n ∷ node_blocks nodes

free_queues-blocks :
    (queues : List ℕ) (live : List Block)
    → free_queues queues (queue_blocks queues ++ live) ≡ some live
free_queues-blocks [] live = refl
free_queues-blocks (q ∷ queues) live =
    let itself : (q == q) ≡ true = ground arith in rw itself (free_queues-blocks queues live)

free_nodes-blocks :
    (nodes : List ℕ) (live : List Block) → free_nodes nodes (node_blocks nodes ++ live) ≡ some live
unfolding node_destroy
free_nodes-blocks [] live = refl
free_nodes-blocks (n ∷ nodes) live =
    let itself : (n == n) ≡ true = ground arith in
    rw (itself, itself) (free_nodes-blocks nodes live)

-- The pipeline's own blocks, with its arrays.
abbrev pub own_blocks : List ℕ → List ℕ → List Block → List Block
own_blocks queues nodes live =
    queue_blocks queues ++ (node_blocks nodes ++ nodes_array ∷ queues_array ∷ live)

pub pipeline_destroy-own_blocks :
    (queues nodes : List ℕ) (live : List Block)
    → pipeline_destroy true true queues nodes (own_blocks queues nodes live)
      ≡ free pipeline_object live
unfolding pipeline_destroy
pipeline_destroy-own_blocks queues nodes live = rw (
  free_queues-blocks queues (node_blocks nodes ++ nodes_array ∷ queues_array ∷ live),
  free_nodes-blocks nodes (nodes_array ∷ queues_array ∷ live),
)

-- What `free` leaves has no block that was not there.
abbrev pub IsOther : Block → Type 0
IsOther b = same_block pipeline_object b ≡ false

abbrev pub Others : Option (List Block) → Type 0
Others none = Unit
Others (some live) = All IsOther live

bind-Others :
    (o : Option (List Block)) (f : List Block → Option (List Block))
    → Others o
    → ((live : List Block) → All IsOther live → Others (f live))
    → Others (o >>= f)
bind-Others none f h next = tt
bind-Others (some live) f h next = next live h

free-Others : (b : Block) (live : List Block) → All IsOther live → Others (free b live)
free-Others b [] h = tt
free-Others b (x ∷ live) h = elim (Bool-cases (same_block b x)) [
  | inl here ↦ rw here h.1
  | inr there ↦ rw there (
      bind-Others (free b live) (λ left. some (x ∷ left)) (free-Others b live h.1)
        (λ left g. (h.0, g)))
]

free_queues-Others :
    (queues : List ℕ) (live : List Block) → All IsOther live → Others (free_queues queues live)
free_queues-Others [] live h = h
free_queues-Others (q ∷ queues) live h =
    bind-Others (free (queue_block q) live) (free_queues queues)
      (free-Others (queue_block q) live h) (free_queues-Others queues)

node_destroy-Others : (n : ℕ) (live : List Block) → All IsOther live → Others (node_destroy n live)
unfolding node_destroy
node_destroy-Others n live h =
    bind-Others (free (outputs_block n) live) (free (node_block n))
      (free-Others (outputs_block n) live h) (free-Others (node_block n))

free_nodes-Others :
    (nodes : List ℕ) (live : List Block) → All IsOther live → Others (free_nodes nodes live)
free_nodes-Others [] live h = h
free_nodes-Others (n ∷ nodes) live h =
    bind-Others (node_destroy n live) (free_nodes nodes) (node_destroy-Others n live h)
      (free_nodes-Others nodes)

free_set-Others :
    (given : Bool) (b : Block) (live : List Block)
    → All IsOther live
    → Others (free_set given b live)
free_set-Others true b live h = free-Others b live h
free_set-Others false b live h = h

free-none : (live : List Block) → All IsOther live → free pipeline_object live ≡ none
free-none [] h = refl
free-none (x ∷ live) h = rw (h.0, free-none live h.1)

-- A chain that ends in a call that is wrong.
ends_none :
    (o : Option (List Block)) {f : List Block → Option (List Block)}
    → Others o
    → ((live : List Block) → All IsOther live → f live ≡ none)
    → (o >>= f) ≡ none
ends_none none h next = refl
ends_none (some live) h next = next live h

-- Where the pipeline is no block from `malloc`, `pipeline_destroy` frees what was not allocated,
-- whatever its arrays hold.
pub pipeline_destroy-static :
    (nodes_set queues_set : Bool) (queues nodes : List ℕ) (live : List Block)
    → All IsOther live
    → pipeline_destroy nodes_set queues_set queues nodes live ≡ none
unfolding pipeline_destroy
pipeline_destroy-static nodes_set queues_set queues nodes live h =
    ends_none (free_queues queues live) (free_queues-Others queues live h) (λ l1 h1.
      ends_none (free_nodes nodes l1) (free_nodes-Others nodes l1 h1) (λ l2 h2.
        ends_none (free_set nodes_set nodes_array l2) (free_set-Others nodes_set nodes_array l2 h2)
          (λ l3 h3.
            ends_none (free_set queues_set queues_array l3)
              (free_set-Others queues_set queues_array l3 h3) (λ l4 h4. free-none l4 h4))))
