-- ===== src/Route/Tests.antt =====
-- The way of one frame at a concrete input: the packet of tests/node_tests/tagger_node_test.c.
use vlan_tagger.Prelude.{
  ℕ, ◌≡◌, refl, true, List, [], ◌∷◌, some, map, arith, pos, Bytes, length, replicate,
  length-replicate,
}
use vlan_tagger.Net.{ntohl}
use vlan_tagger.Config.{TagRule}
use vlan_tagger.Config.Valid.{AreApart}
use vlan_tagger.Queue.{Queue, q_size, max_pkg_size, init}
use vlan_tagger.Queue.Holds.{Holds, init-Holds}
use vlan_tagger.Node.{
  Node, NodeType, NodeProcess, tagger, tagger_process, custom, packet_counter_process,
}
use vlan_tagger.Frame.{over, ethernet_frame_length}
use vlan_tagger.Tagger.{to_host, tag_round}
use vlan_tagger.Tagger.Frames.{tagged}
use vlan_tagger.Tagger.Process.{IsIpv4, Gives}
use vlan_tagger.Counter.{PacketCounterContext, packet_counter_node_process}
use vlan_tagger.Route.{IsIdle, Hop, sent_frames, one_round, tag_round_sent}

abbrev dummy_rule : TagRule
dummy_rule = record { ip_left = ntohl 0xc0a80100; ip_right = ntohl 0xc0a801ff; tag = pos 100 }

abbrev rules : List TagRule
rules = dummy_rule ∷ []

abbrev packet : Bytes
packet =
    0xaa ∷ 0xbb ∷ 0xcc ∷ 0xdd ∷ 0xee ∷ 0xff ∷ 0x11 ∷ 0x22 ∷ 0x33 ∷ 0x44 ∷ 0x55 ∷ 0x66 ∷ 0x08 ∷ 0x00
    ∷ 0x45 ∷ 0 ∷ 0 ∷ 24 ∷ 0 ∷ 0 ∷ 0 ∷ 0 ∷ 64 ∷ 6 ∷ 0 ∷ 0 ∷ 0 ∷ 0 ∷ 0 ∷ 0 ∷ 192 ∷ 168 ∷ 1 ∷ 10 ∷ 0
    ∷ 0 ∷ 0 ∷ 0 ∷ []

packet-IsIpv4 : IsIpv4 packet
packet-IsIpv4 = record {
  bytes = omega arith;
  long = omega arith;
  ether_type = refl;
  address = omega arith;
}

packet-Gives : Gives rules 0 packet 100
unfolding ntohl
packet-Gives = record {
  rule = dummy_rule;
  at_i = refl;
  holds = omega arith;
  tag = refl;
  vid_pos = omega arith;
  vid_small = omega arith;
}

rules-AreApart : AreApart rules
rules-AreApart = (tt, tt)

buffer : Bytes
buffer = replicate ethernet_frame_length 0

length-buffer : length buffer ≡ ethernet_frame_length
unfolding buffer
length-buffer = length-replicate {A = ℕ} ethernet_frame_length 0

memory : Queue
memory = record {
  slots = replicate q_size (replicate max_pkg_size 0);
  sizes = [];
  front = 0;
  rear = 0;
  condition = record { blocked = 0; released = 0 };
}

memory_slots : length memory.slots ≡ q_size
unfolding memory
memory_slots = length-replicate {A = Bytes} q_size (replicate max_pkg_size 0)

fresh : Queue
fresh = (init true true memory).1

fresh-Holds : Holds fresh []
unfolding fresh
fresh-Holds = (init-Holds memory memory_slots).1

abbrev queues : List Queue
queues = fresh ∷ fresh ∷ []

-- A node that sends into the queue 1.
abbrev node : NodeType → NodeProcess → Node
node node_type process = record {
  name = [];
  node_type = node_type;
  input_queue = some 0;
  output_queues = 1 ∷ [];
  process = process;
  should_exit = true;
}

node-IsIdle :
    (node_type : NodeType) (process : NodeProcess) → IsIdle (node node_type process) 1 queues
node-IsIdle node_type process = record {
  one_output = refl;
  queue = fresh;
  at_o = refl;
  empty = fresh-Holds;
}

abbrev ctx : PacketCounterContext
ctx = record {
  total_packets = 0;
  total_bytes = 0;
  vlan_packets = 0;
  non_vlan_packets = 0;
  log_interval = pos 10;
}

tag_round_sent_example :
    let t = tagged packet 100 in
    let counter = node custom packet_counter_process in
    let after =
      tag_round
        (node tagger tagger_process)
        (map to_host rules)
        (some buffer)
        queues
        (over packet buffer)
        38 in
    Hop after.1 1 42 buffer (over t buffer)
    × ((end : PacketCounterContext) × (queues3 : List Queue) × (packet_counter_node_process counter
            ctx
            (one_round queues (over t buffer) 42)
          ≡ some (end, queues3 ∷ []))
        × Hop queues3 1 42 buffer (over t buffer))
    × (sent_frames 42 (over t buffer) ≡ t ∷ [])
tag_round_sent_example =
    tag_round_sent (node tagger tagger_process) (node custom packet_counter_process) 1 1 0 9 ctx
      queues queues rules 0 100 packet buffer buffer buffer buffer
      (node-IsIdle tagger tagger_process) (node-IsIdle custom packet_counter_process) refl refl
      rules-AreApart packet-IsIpv4 packet-Gives length-buffer length-buffer length-buffer
      (omega arith)
