-- ===== src/Lifecycle.antt =====
-- pipeline/node.c and pipeline/pipeline.c: the threads of a pipeline, and its memory. A node or a queue
-- is its place in the list of all of them.
pub mod Frees
pub mod Joins
mod Tests
use vlan_tagger.Prelude.{
  ℕ, zero, suc, Bool, true, false, List, [], ◌∷◌, ◌++◌, Option, none, some, ◌==◌, if◌then◌else◌, ℤ,
  pos, minus_one, take, drop,
}
use vlan_tagger.Frame.{◌>>=◌}
use vlan_tagger.Pipeline.{Heap}

-- `node_start` on a node of the pipeline, which always has a function, given whether `pthread_create`
-- succeeds: the threads that can be joined.
unfoldable pub node_start : ℕ → Bool → List ℕ → ℤ × List ℕ
node_start node true threads = (pos 0, node ∷ threads)
node_start node false threads = (minus_one, threads)

-- `pipeline_start`: the coming calls of `pthread_create`; behind the end of that list they succeed.
unfoldable pub pipeline_start : List ℕ → List Bool → List ℕ → ℤ × List ℕ
pipeline_start [] fates threads = (pos 0, threads)
pipeline_start (n ∷ nodes) [] threads =
    let (r, threads') = node_start n true threads in
    let rest = pipeline_start nodes [] threads' in
    elim r [ pos zero ↦ rest | _ ↦ (minus_one, threads') ]
pipeline_start (n ∷ nodes) (fate ∷ fates) threads =
    let (r, threads') = node_start n fate threads in
    let rest = pipeline_start nodes fates threads' in
    elim r [ pos zero ↦ rest | _ ↦ (minus_one, threads') ]

-- How `pthread_join` ends: with the threads that are left, on a thread that was never started or was
-- joined before, or not at all.
pub data Joined : Type 0 where
  joined : List ℕ → Joined
  no_thread : Joined
  never : Joined

-- The other threads, where the node's is one of them.
abbrev pub others_of : ℕ → List ℕ → Option (List ℕ)
others_of node [] = none
others_of node (t ∷ threads) =
    let rest = others_of node threads >>= λ left. some (t ∷ left) in
    if t == node then some threads else rest

-- `pthread_join`, given which nodes' process functions ever return.
abbrev pub join : (ℕ → Bool) → ℕ → List ℕ → Joined
join returns node threads = elim (others_of node threads) [
  | none ↦ no_thread
  | some left ↦ if returns node then joined left else never
]

-- `node_stop` for each node: the end of `pipeline_stop`, and the loop at the end of `main`.
unfoldable pub join_all : (ℕ → Bool) → List ℕ → List ℕ → Joined
join_all returns [] threads = joined threads
join_all returns (n ∷ nodes) threads = elim (join returns n threads) [
  | joined left ↦ join_all returns nodes left
  | no_thread ↦ no_thread
  | never ↦ never
]

-- `pipeline_build`, where the callback, with its context, may be NULL.
unfoldable pub pipeline_build : Option (Heap → ℤ × Heap) → Heap → ℤ × Heap
pipeline_build none h = (pos 1, h)
pipeline_build (some cb) h = let (r, h') = cb h in (elim r [ pos zero ↦ pos 0 | _ ↦ pos 1 ], h')

-- A block of memory that `free` is given. `pipeline_object` is the pipeline itself.
pub data Block : Type 0 where
  queue_block : ℕ → Block
  node_block : ℕ → Block
  outputs_block : ℕ → Block
  nodes_array : Block
  queues_array : Block
  pipeline_object : Block

abbrev pub same_block : Block → Block → Bool
same_block (queue_block i) b = elim b [ queue_block j ↦ i == j | _ ↦ false ]
same_block (node_block i) b = elim b [ node_block j ↦ i == j | _ ↦ false ]
same_block (outputs_block i) b = elim b [ outputs_block j ↦ i == j | _ ↦ false ]
same_block nodes_array b = elim b [ nodes_array ↦ true | _ ↦ false ]
same_block queues_array b = elim b [ queues_array ↦ true | _ ↦ false ]
same_block pipeline_object b = elim b [ pipeline_object ↦ true | _ ↦ false ]

-- `free`, with the blocks that were allocated and not freed; `none` is any other block.
abbrev pub free : Block → List Block → Option (List Block)
free b [] = none
free b (x ∷ live) =
    let rest = free b live >>= λ left. some (x ∷ left) in if same_block b x then some live else rest

-- The loop over the queues, and `node_destroy` for each node.
abbrev pub free_queues : List ℕ → List Block → Option (List Block)
free_queues [] live = some live
free_queues (q ∷ queues) live = free (queue_block q) live >>= λ left. free_queues queues left

unfoldable pub node_destroy : ℕ → List Block → Option (List Block)
node_destroy n live = free (outputs_block n) live >>= λ left. free (node_block n) left

abbrev pub free_nodes : List ℕ → List Block → Option (List Block)
free_nodes [] live = some live
free_nodes (n ∷ nodes) live = node_destroy n live >>= λ left. free_nodes nodes left

-- `free` of a pointer that may be NULL.
abbrev pub free_set : Bool → Block → List Block → Option (List Block)
free_set true b live = free b live
free_set false b live = some live

-- `pipeline_destroy`; the first two arguments say whether the pointers to the two arrays are set.
unfoldable pub pipeline_destroy : Bool → Bool → List ℕ → List ℕ → List Block → Option (List Block)
pipeline_destroy nodes_set queues_set queues nodes live = free_queues queues live >>= λ live1.
    free_nodes nodes live1 >>= λ live2. free_set nodes_set nodes_array live2 >>= λ live3.
    free_set queues_set queues_array live3 >>= λ live4. free pipeline_object live4
