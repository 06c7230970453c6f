-- ===== src/Pattern/Topology.antt =====
-- pipeline_patterns/patterns.c: the graphs that the two patterns build.
use vlan_tagger.Prelude.{
  ℕ, ◌≡◌, refl, true, false, List, [], ◌∷◌, Option, none, some, Bytes, map, length, pos,
}
use vlan_tagger.Queue.{Queue, init}
use vlan_tagger.Node.{
  Node, NodeType, sniffer, tagger, sender, custom, NodeProcess, sniffer_process, tagger_process,
  packet_counter_process, collector_process, logger_process, sender_process, node_create,
  node_add_output, node_set_input,
}
use vlan_tagger.Dispatcher.{dispatcher_node_create}
use vlan_tagger.Pipeline.{
  Heap, pipeline_add_node, pipeline_create_queue, target_queue, pipeline_connect, connect_all,
  connect_dispatcher, pipeline_connect_shared,
}
use vlan_tagger.Pattern.{
  vlan_tagger_wiring, vlan_tagger_pattern, detailed_logging_wiring, detailed_logging_pattern,
}

-- Before the first node, with memory for all that is asked for.
abbrev pub nothing : Heap
nothing = record {
  nodes = [];
  queues = [];
  pipeline = record { nodes = []; queues = []; should_exit = false };
  fates = [];
}

-- The node that a `..._node_create` makes.
abbrev pub made : Bytes → NodeType → NodeProcess → Option Node
made name node_type process = node_create true true (some name) node_type (some process)

-- The edges: the queue that a node reads, and those that it writes.
abbrev pub edges : Node → Option ℕ × List ℕ
edges node = (node.input_queue, node.output_queues)

-- Where all allocations succeed, `vlan_tagger_pattern` builds in an empty pipeline the graph
-- that main.c logs: the sniffer (node 0) feeds the dispatcher (node 5), which feeds the two taggers
-- (nodes 1 and 2) by a queue each; both taggers feed the packet counter (node 3) by one queue,
-- and the counter the sender (node 4). The dispatcher is the last node of the pipeline.
pub vlan_tagger_pattern-edges :
    (memory : Queue) (name1 name2 name3 name4 name5 : Bytes)
    → let built =
        vlan_tagger_pattern memory
          (made name1 sniffer sniffer_process)
          (made name2 tagger tagger_process)
          (made name3 tagger tagger_process)
          (made name4 custom packet_counter_process)
          (made name5 sender sender_process)
          nothing in
      (built.0 ≡ pos 0)
      × (map edges built.1.nodes
          ≡ (none, 0 ∷ [])
            ∷ (some 1, 3 ∷ [])
            ∷ (some 2, 3 ∷ [])
            ∷ (some 3, 4 ∷ [])
            ∷ (some 4, [])
            ∷ (some 0, 1 ∷ 2 ∷ [])
            ∷ [])
      × (built.1.pipeline.nodes ≡ 0 ∷ 1 ∷ 2 ∷ 3 ∷ 4 ∷ 5 ∷ [])
      × (built.1.pipeline.queues ≡ 0 ∷ 1 ∷ 2 ∷ 3 ∷ 4 ∷ [])
      × (length built.1.queues ≡ 5)
unfolding vlan_tagger_pattern vlan_tagger_wiring pipeline_add_node pipeline_create_queue
    target_queue pipeline_connect connect_all connect_dispatcher pipeline_connect_shared init
    node_create node_add_output node_set_input dispatcher_node_create
vlan_tagger_pattern-edges memory name1 name2 name3 name4 name5 = (refl, refl, refl, refl, refl)

-- Where all allocations succeed, `detailed_logging_pattern` builds in an empty pipeline this
-- graph: the sniffer (node 0) feeds the dispatcher (node 8) and the first logger (node 4); the
-- dispatcher feeds the taggers (nodes 1 and 2) by a queue each, and both feed the collector (node
-- 3) by one queue. The collector feeds the sender (node 7), the second logger (node 5) and the
-- packet counter (node 6) by a queue each.
pub detailed_logging_pattern-edges :
    (memory : Queue) (name1 name2 name3 name4 name5 name6 name7 name8 : Bytes)
    → let built =
        detailed_logging_pattern memory
          (made name1 sniffer sniffer_process)
          (made name2 tagger tagger_process)
          (made name3 tagger tagger_process)
          (made name4 custom collector_process)
          (made name5 custom logger_process)
          (made name6 custom logger_process)
          (made name7 custom packet_counter_process)
          (made name8 sender sender_process)
          nothing in
      (built.0 ≡ pos 0)
      × (map edges built.1.nodes
          ≡ (none, 0 ∷ 3 ∷ [])
            ∷ (some 1, 4 ∷ [])
            ∷ (some 2, 4 ∷ [])
            ∷ (some 4, 5 ∷ 6 ∷ 7 ∷ [])
            ∷ (some 3, [])
            ∷ (some 6, [])
            ∷ (some 7, [])
            ∷ (some 5, [])
            ∷ (some 0, 1 ∷ 2 ∷ [])
            ∷ [])
      × (built.1.pipeline.nodes ≡ 0 ∷ 1 ∷ 2 ∷ 3 ∷ 4 ∷ 5 ∷ 6 ∷ 7 ∷ 8 ∷ [])
      × (built.1.pipeline.queues ≡ 0 ∷ 1 ∷ 2 ∷ 3 ∷ 4 ∷ 5 ∷ 6 ∷ 7 ∷ [])
unfolding detailed_logging_pattern detailed_logging_wiring pipeline_add_node pipeline_create_queue
    target_queue pipeline_connect connect_all connect_dispatcher pipeline_connect_shared init
    node_create node_add_output node_set_input dispatcher_node_create
detailed_logging_pattern-edges memory name1 name2 name3 name4 name5 name6 name7 name8 =
    (refl, refl, refl, refl)
