-- ===== src/Pipeline/Tests.antt =====
-- The theorems on the pipeline at concrete inputs.
use vlan_tagger.Prelude.{
  ℕ, refl, get_elem?, false, length-replicate, ◌≡◌, true, [], ◌∷◌, none, some, arith, Bytes, length,
  replicate,
}
use vlan_tagger.Queue.{Queue, q_size, max_pkg_size, init, pop, woken, waiting}
use vlan_tagger.Queue.Holds.{Holds, init-Holds}
use vlan_tagger.Pipeline.Stops.{pipeline_stop-waiting}
use vlan_tagger.Node.{
  Node, NodeType, NodeProcess, sniffer, tagger, sender, custom, sniffer_process, tagger_process,
  packet_counter_process, sender_process,
}
use vlan_tagger.Pipeline.Wired.{Sound, IsWired}
use vlan_tagger.Pipeline.Connect.{pipeline_connect-IsWired}
use vlan_tagger.Pipeline.Shared.{pipeline_connect_shared-IsWired}
use vlan_tagger.Pipeline.{Heap, pipeline_connect, pipeline_connect_shared, pipeline_stop}

memory : Queue
memory = record {
  slots = replicate q_size (replicate max_pkg_size 0);
  sizes = [];
  front = 0;
  rear = 0;
  condition = record { blocked = 0; released = 0 };
}

memory_slots : length memory.slots ≡ q_size
unfolding memory
memory_slots = length-replicate {A = Bytes} q_size (replicate max_pkg_size 0)

-- Five new nodes, and a pipeline in which the third call that may fail does so.
abbrev node : Bytes → NodeType → NodeProcess → Node
node name node_type process = record {
  name = name;
  node_type = node_type;
  input_queue = none;
  output_queues = [];
  process = process;
  should_exit = false;
}

abbrev heap : Heap
heap = record {
  nodes =
      node (83 ∷ []) sniffer sniffer_process
      ∷ node (84 ∷ []) tagger tagger_process
      ∷ node (85 ∷ []) tagger tagger_process
      ∷ node (67 ∷ []) custom packet_counter_process
      ∷ node (86 ∷ []) sender sender_process
      ∷ [];
  queues = [];
  pipeline = record { nodes = []; queues = []; should_exit = false };
  fates = true ∷ true ∷ false ∷ [];
}

node-Sound :
    (name : Bytes) (node_type : NodeType) (process : NodeProcess)
    → Sound 0 (node name node_type process)
node-Sound name node_type process = record { few = omega arith; outputs = tt; input = tt }

heap-IsWired : IsWired heap
heap-IsWired = record {
  few_nodes = omega arith;
  few_queues = omega arith;
  known = tt;
  sound = (
    node-Sound _ _ _,
    (node-Sound _ _ _, (node-Sound _ _ _, (node-Sound _ _ _, (node-Sound _ _ _, tt)))),
  );
  rings = tt;
}

pipeline_connect-IsWired_example : IsWired (pipeline_connect memory (some 0) (some 1) heap).1
pipeline_connect-IsWired_example =
    pipeline_connect-IsWired memory memory_slots (some 0) (some 1) heap heap-IsWired

pipeline_connect_shared-IsWired_example :
    IsWired (pipeline_connect_shared memory (some 0) (some 1 ∷ none ∷ some 2 ∷ []) heap).1
pipeline_connect_shared-IsWired_example =
    pipeline_connect_shared-IsWired memory memory_slots (some 0) (some 1 ∷ none ∷ some 2 ∷ []) heap
      heap-IsWired

-- A queue that was just initialised, of which the pipeline knows.
fresh : Queue
fresh = (init true true memory).1

fresh-Holds : Holds fresh []
unfolding fresh
fresh-Holds = (init-Holds memory memory_slots).1

abbrev running : Heap
running = record heap {
  queues = fresh ∷ [];
  pipeline = record { nodes = []; queues = 0 ∷ []; should_exit = false };
}

pipeline_stop-waiting_example :
    let stopped = pipeline_stop running in
    (stopped.pipeline.should_exit ≡ true)
    × ((q' : Queue) × (get_elem? stopped.queues 0 ≡ some q')
        × ((k : ℕ) → pop fresh (replicate max_pkg_size 0) (replicate k (woken q')) ≡ waiting))
pipeline_stop-waiting_example =
    pipeline_stop-waiting running 0 fresh (replicate max_pkg_size 0) refl fresh-Holds
