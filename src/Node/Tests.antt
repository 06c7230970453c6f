-- ===== src/Node/Tests.antt =====
-- The theorems on `node_send_to_outputs` at concrete inputs.
use vlan_tagger.Prelude.{
  ◌≡◌, true, List, [], ◌∷◌, some, arith, Bytes, length, replicate, length-replicate,
}
use vlan_tagger.Queue.{Queue, q_size, max_pkg_size, init}
use vlan_tagger.Queue.Fifo
use vlan_tagger.Queue.Holds.{Holds, init-Holds}
use vlan_tagger.Node.{Node, custom, collector_process, node_send_to_outputs}
use vlan_tagger.Node.Send.{HoldsAt, node_send_to_outputs-HoldsAt}

memory : Queue
memory = record {
  slots = replicate q_size (replicate max_pkg_size 0);
  sizes = [];
  front = 0;
  rear = 0;
  condition = record { blocked = 0; released = 0 };
}

memory_slots : length memory.slots ≡ q_size
unfolding memory
memory_slots = length-replicate {A = Bytes} q_size (replicate max_pkg_size 0)

fresh : Queue
fresh = (init true true memory).1

fresh-Holds : Holds fresh []
unfolding fresh
fresh-Holds = (init-Holds memory memory_slots).1

abbrev collector : Node
collector = record {
  name = 67 ∷ [];
  node_type = custom;
  input_queue = some 1;
  output_queues = 0 ∷ 2 ∷ [];
  process = collector_process;
  should_exit = true;
}

queues : List Queue
queues = fresh ∷ fresh ∷ fresh ∷ []

queues-HoldsAt : HoldsAt queues 2 []
unfolding queues
queues-HoldsAt q e = let same : q ≡ fresh = cc in rw same fresh-Holds

node_send_to_outputs-HoldsAt_example :
    HoldsAt
      (node_send_to_outputs (some collector) queues (some (7 ∷ 8 ∷ 9 ∷ [])) 2)
      2
      ((7 ∷ 8 ∷ []) ∷ [])
unfolding Fifo.push
node_send_to_outputs-HoldsAt_example =
    node_send_to_outputs-HoldsAt collector queues (7 ∷ 8 ∷ 9 ∷ []) 2 2 [] (omega arith)
      (omega arith) queues-HoldsAt
