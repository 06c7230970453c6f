-- ===== src/Pipeline.antt =====
-- pipeline/pipeline.h and pipeline/pipeline.c. A pointer to a node or a queue is its place in the list of all of
-- them; the two arrays of the pipeline are their first `node_count` and `queue_count` cells.
pub mod Wired
pub mod Edges
pub mod Connect
pub mod Shared
pub mod Stops
mod Tests
use vlan_tagger.Prelude.{
  ℕ, zero, suc, ◌+◌, ◌-◌, Bool, true, false, not, List, [], ◌∷◌, ◌++◌, Option, none, some, leb,
  if◌then◌else◌, ℤ, pos, negsuc, minus_one, Bytes, length, take, get_elem?,
}
use vlan_tagger.Frame.{◌>>=◌}
use vlan_tagger.Queue.{Queue, init, send_signal_queue}
use vlan_tagger.Node.{Node, update, node_add_output, node_set_input}
use vlan_tagger.Dispatcher.{DispatcherContext, round_robin, dispatcher_node_create}

-- `MAX_PIPELINE_NODES` and `MAX_PIPELINE_QUEUES`.
abbrev pub max_pipeline_nodes : ℕ
max_pipeline_nodes = 32

abbrev pub max_pipeline_queues : ℕ
max_pipeline_queues = 64

-- `Pipeline`
pub record Pipeline : Type 0 where
  pub nodes : List ℕ
  pub queues : List ℕ
  pub should_exit : Bool

-- All nodes and queues that there are, the pipeline, and how the coming calls of `malloc`, `calloc` and
-- `pthread_..._init` end; behind the end of that list they all succeed.
pub record Heap : Type 0 where
  pub nodes : List Node
  pub queues : List Queue
  pub pipeline : Pipeline
  pub fates : List Bool

-- The next of those calls.
abbrev pub take_fate : List Bool → Heap → Bool × Heap
take_fate [] h = (true, h)
take_fate (b ∷ bs) h = (b, record h { fates = bs })

abbrev pub next_fate : Heap → Bool × Heap
next_fate h = take_fate h.fates h

-- `pipeline_init`: both arrays are asked for before either is tested.
unfoldable pub pipeline_init : Heap → ℤ × Heap
pipeline_init h =
    let (nodes_made, h1) = next_fate h in
    let (queues_made, h2) = next_fate h1 in
    if not nodes_made
    then (pos 1, h2)
    else if not queues_made
    then (pos 1, h2)
    else (pos 0, record h2 { pipeline = record { nodes = []; queues = []; should_exit = false } })

-- `pipeline_add_node`, with NULL for the node.
unfoldable pub pipeline_add_node : Option ℕ → Heap → ℤ × Heap
pipeline_add_node none h = (minus_one, h)
pipeline_add_node (some node) h =
    if leb max_pipeline_nodes (length h.pipeline.nodes) then (minus_one, h) else (
      pos 0,
      record h {
        nodes = update h.nodes node (λ n. record n { should_exit = true });
        pipeline = record (h.pipeline) { nodes = h.pipeline.nodes ++ node ∷ [] };
      },
    )

-- The new queue among the others, where `init` was given it.
abbrev pub place_queue : ℤ × Queue → Heap → Option ℕ × Heap
place_queue (pos zero, q) h = (
  some (length h.queues),
  record h {
    queues = h.queues ++ q ∷ [];
    pipeline = record (h.pipeline) { queues = h.pipeline.queues ++ length h.queues ∷ [] };
  },
)
place_queue (r, q) h = (none, h)

-- `pipeline_create_queue`; `memory` is what `malloc` returns.
unfoldable pub pipeline_create_queue : Queue → Heap → Option ℕ × Heap
pipeline_create_queue memory h =
    if leb max_pipeline_queues (length h.pipeline.queues)
    then (none, h)
    else (let (queue_made, h1) = next_fate h in
        let (mutex_made, h2) = next_fate h1 in
        let (cond_made, h3) = next_fate h2 in
        if not queue_made
        then (none, h1)
        else if not mutex_made
        then (none, h2)
        else place_queue (init mutex_made cond_made memory) h3)

-- The node at a place, for functions that change a node.
abbrev pub put_node : ℕ → ℤ × Option Node → Heap → ℤ × Heap
put_node i (r, some node) h = (r, record h { nodes = update h.nodes i (λ n. node) })
put_node i (r, none) h = (r, h)

-- The queue into which `pipeline_connect` is to send: the target's, or a new one.
unfoldable pub target_queue : Queue → ℕ → Heap → Option ℕ × Heap
target_queue memory to h = elim (get_elem? h.nodes to >>= (λ n. n.input_queue)) [
  | some q ↦ (some q, h)
  | none ↦
      let (queue, h1) = pipeline_create_queue memory h in
      (
        queue,
        elim queue [
          | none ↦ h1
          | some q ↦ (put_node to (node_set_input (get_elem? h1.nodes to) (some q)) h1).1
        ],
      )
]

-- `pipeline_connect`, with NULL for either node.
unfoldable pub pipeline_connect : Queue → Option ℕ → Option ℕ → Heap → ℤ × Heap
pipeline_connect memory (some from) (some to) h =
    let (queue, h1) = target_queue memory to h in
    elim queue [
      | none ↦ (minus_one, h1)
      | some q ↦ put_node from (node_add_output (get_elem? h1.nodes from) (some q)) h1
    ]
pipeline_connect memory (some from) none h = (minus_one, h)
pipeline_connect memory none to h = (minus_one, h)

-- The loop of `pipeline_connect_shared` over the targets, which passes over NULL.
unfoldable pub connect_all : Queue → ℕ → List (Option ℕ) → Heap → ℤ × Heap
connect_all memory dispatcher [] h = (pos 0, h)
connect_all memory dispatcher (none ∷ to_nodes) h = connect_all memory dispatcher to_nodes h
connect_all memory dispatcher (some to ∷ to_nodes) h =
    let (r, h1) = pipeline_connect memory (some dispatcher) (some to) h in
    let rest = connect_all memory dispatcher to_nodes h1 in
    elim r [ pos zero ↦ rest | _ ↦ (minus_one, h1) ]

-- "Disp_%.58s"
abbrev pub dispatcher_name : Bytes → Bytes
dispatcher_name name = 68 ∷ 105 ∷ 115 ∷ 112 ∷ 95 ∷ take 58 name

-- The three allocations of `dispatcher_node_create`, each made only where those before it succeed.
abbrev pub new_dispatcher : Bytes → Heap → Option (Node × DispatcherContext) × Heap
new_dispatcher name h =
    let (ctx_made, h1) = next_fate h in
    let (node_made, h2) = next_fate h1 in
    let (outputs_made, h3) = next_fate h2 in
    (
      dispatcher_node_create ctx_made node_made outputs_made (some name) round_robin,
      if not ctx_made then h1 else if not node_made then h2 else h3,
    )

-- From `pipeline_add_node` on, with the new node at the place `dispatcher`.
unfoldable pub connect_dispatcher : Queue → ℕ → ℕ → List (Option ℕ) → Heap → ℤ × Heap
connect_dispatcher memory from dispatcher to_nodes h =
    let (added, h1) = pipeline_add_node (some dispatcher) h in
    let (r, h2) = pipeline_connect memory (some from) (some dispatcher) h1 in
    let rest = connect_all memory dispatcher to_nodes h2 in
    elim added [ pos zero ↦ elim r [ pos zero ↦ rest | _ ↦ (minus_one, h2) ] | _ ↦ (minus_one, h1) ]

-- `pipeline_connect_shared`: `to_nodes` has `to_count` cells.
unfoldable pub pipeline_connect_shared : Queue → Option ℕ → List (Option ℕ) → Heap → ℤ × Heap
pipeline_connect_shared memory none to_nodes h = (minus_one, h)
pipeline_connect_shared memory (some from) [] h = (minus_one, h)
pipeline_connect_shared memory (some from) (to ∷ to_nodes) h = elim (get_elem? h.nodes from) [
  | none ↦ (minus_one, h)
  | some source ↦
      let (made, h1) = new_dispatcher (dispatcher_name source.name) h in
      elim made [
        | none ↦ (minus_one, h1)
        | some (dispatcher, ctx) ↦
            connect_dispatcher memory from (length h1.nodes) (to ∷ to_nodes)
              (record h1 { nodes = h1.nodes ++ dispatcher ∷ [] })
      ]
]

-- `pipeline_stop` up to the joins: the flag, and a signal for each queue.
abbrev pub signal_all : List ℕ → List Queue → List Queue
signal_all [] queues = queues
signal_all (q ∷ qs) queues = signal_all qs (update queues q send_signal_queue)

unfoldable pub pipeline_stop : Heap → Heap
pipeline_stop h = record h {
  queues = signal_all h.pipeline.queues h.queues;
  pipeline = record (h.pipeline) { should_exit = true };
}
