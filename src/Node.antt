-- ===== src/Node.antt =====
-- pipeline/node.h and pipeline/node.c, and the loop that the `..._node_process` functions under
-- nodes/src share. A pointer to a queue is the queue's place in the list of all queues.
pub mod Send
pub mod Rounds
mod Tests
use vlan_tagger.Prelude.{
  ℕ, zero, suc, ◌+◌, ◌-◌, Bool, true, false, not, List, [], ◌∷◌, ◌++◌, Option, none, some, leb,
  if◌then◌else◌, ℤ, pos, negsuc, minus_one, Bytes, length, take,
}
use vlan_tagger.Queue.{Queue, push}

-- `MAX_NODE_OUTPUTS` and `MAX_NODE_NAME`.
abbrev pub max_node_outputs : ℕ
max_node_outputs = 16

abbrev pub max_node_name : ℕ
max_node_name = 64

-- `NodeType`
pub data NodeType : Type 0 where
  sniffer : NodeType
  tagger : NodeType
  sender : NodeType
  ip_modifier : NodeType
  custom : NodeType

-- The functions that `process` points to.
pub data NodeProcess : Type 0 where
  sniffer_process : NodeProcess
  tagger_process : NodeProcess
  sender_process : NodeProcess
  ip_modifier_process : NodeProcess
  logger_process : NodeProcess
  packet_counter_process : NodeProcess
  collector_process : NodeProcess
  dispatcher_process : NodeProcess

-- `struct Node`: `output_queues` has the first `output_count` cells of the array, and `should_exit`
-- says whether that pointer is set. What `context` points to is a value beside the node.
pub record Node : Type 0 where
  pub name : Bytes
  pub node_type : NodeType
  pub input_queue : Option ℕ
  pub output_queues : List ℕ
  pub process : NodeProcess
  pub should_exit : Bool

-- `node_create`: the name and the function may be NULL, and each of the two allocations may fail.
unfoldable pub node_create :
    Bool → Bool → Option Bytes → NodeType → Option NodeProcess → Option Node
node_create node_made outputs_made (some name) node_type (some process) =
    if not node_made
    then none
    else if not outputs_made
    then none
    else some (record {
      name = take (max_node_name - 1) name;
      node_type = node_type;
      input_queue = none;
      output_queues = [];
      process = process;
      should_exit = false;
    })
node_create node_made outputs_made (some name) node_type none = none
node_create node_made outputs_made none node_type process = none

-- `node_add_output`, with NULL for either pointer.
unfoldable pub node_add_output : Option Node → Option ℕ → ℤ × Option Node
node_add_output (some node) (some output_queue) =
    if leb max_node_outputs (length node.output_queues)
    then (minus_one, some node)
    else (pos 0, some (record node { output_queues = node.output_queues ++ output_queue ∷ [] }))
node_add_output (some node) none = (minus_one, some node)
node_add_output none output_queue = (minus_one, none)

-- `node_set_input`, with NULL for either pointer.
unfoldable pub node_set_input : Option Node → Option ℕ → ℤ × Option Node
node_set_input (some node) (some input_queue) =
    (pos 0, some (record node { input_queue = some input_queue }))
node_set_input (some node) none = (minus_one, some node)
node_set_input none input_queue = (minus_one, none)

-- The queue at a place, changed.
abbrev pub update {ℓ} : {A : Type ℓ} → List A → ℕ → (A → A) → List A
update [] i f = []
update (x ∷ xs) zero f = f x ∷ xs
update (x ∷ xs) (suc i) f = x ∷ update xs i f

-- The loop of `node_send_to_outputs` over the outputs; a failed `push` is only logged.
abbrev pub send_all : List ℕ → List Queue → Bytes → ℕ → List Queue
send_all [] queues buffer size = queues
send_all (o ∷ outputs) queues buffer size =
    send_all outputs (update queues o (λ q. (push q buffer size).1)) buffer size

-- `node_send_to_outputs`, with NULL for the node or the buffer.
unfoldable pub node_send_to_outputs : Option Node → List Queue → Option Bytes → ℕ → List Queue
node_send_to_outputs (some node) queues (some buffer) size =
    send_all node.output_queues queues buffer size
node_send_to_outputs (some node) queues none size = queues
node_send_to_outputs none queues buffer size = queues

-- What a round of a process loop meets: the flag `*should_exit` at its start, what `pop` returns and
-- leaves in the buffer, and the queues as the other threads left them by then.
pub record Round : Type 0 where
  pub stop : Bool
  pub packet_size : ℤ
  pub buffer : Bytes
  pub queues : List Queue

-- `while (!*should_exit) { packet_size = pop(...); if (packet_size < 1) { if (packet_size == 0)
-- continue; break; } ... }`, as a list of the rounds that it goes through. The result has what the
-- body makes of the node's own state, and the queues behind each run of the body.
unfoldable pub process_loop {ℓ} :
    {S : Type ℓ}
    → (S → List Queue → Bytes → ℕ → S × List Queue)
    → S
    → List Round
    → S × List (List Queue)
process_loop body s [] = (s, [])
process_loop body s (r ∷ rounds) = elim r.stop [
  | true ↦ (s, [])
  | false ↦ elim r.packet_size [
    | negsuc n ↦ (s, [])
    | pos zero ↦ process_loop body s rounds
    | pos (suc n) ↦
        let (s', queues') = body s r.queues r.buffer (suc n) in
        let (end, trace) = process_loop body s' rounds in (end, queues' ∷ trace)
  ]
]

-- A process function that finds no input queue leaves its loop at once.
unfoldable pub with_input {ℓ} :
    {S : Type ℓ} → Node → S → S × List (List Queue) → S × List (List Queue)
with_input node s run = elim node.input_queue [ none ↦ (s, []) | some q ↦ run ]
