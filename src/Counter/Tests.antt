-- ===== src/Counter/Tests.antt =====
-- The theorems on the packet counter and the collector at concrete inputs.
use vlan_tagger.Prelude.{
  ◌+◌, ◌≡◌, refl, arith, All, none, true, false, List, [], ◌∷◌, ◌++◌, some, Bytes, ℤ, pos, negsuc,
  replicate,
}
use vlan_tagger.Queue.{Queue}
use vlan_tagger.Tagger.Frames.{AreBytes}
use vlan_tagger.Node.{Node, custom, packet_counter_process, node_create, Round}
use vlan_tagger.Node.Rounds.{accepted}
use vlan_tagger.Counter.Counts.{packet_counter_node_process-counts}
use vlan_tagger.Counter.{
  PacketCounterContext, ulong, is_vlan_packet, packet_counter_node_create,
  packet_counter_node_process, packet_counter_loop, count,
}

abbrev node : Node
node = record {
  name = 67 ∷ [];
  node_type = custom;
  input_queue = some 3;
  output_queues = 4 ∷ [];
  process = packet_counter_process;
  should_exit = true;
}

abbrev ctx : PacketCounterContext
ctx = record {
  total_packets = 0;
  total_bytes = 0;
  vlan_packets = 0;
  non_vlan_packets = 0;
  log_interval = pos 10;
}

abbrev round : ℤ → Bytes → Round
round size buffer = record { stop = false; packet_size = size; buffer = buffer; queues = [] }

abbrev tagged : Bytes
tagged = replicate 12 1 ++ 0x81 ∷ 0 ∷ 0 ∷ 100 ∷ []

-- A tagged packet, no packet, a packet that is too short for a VLAN header, and an error of `pop`.
abbrev rounds : List Round
rounds =
    round (pos 16) tagged
    ∷ round (pos 0) tagged
    ∷ round (pos 15) tagged
    ∷ round (negsuc 0) tagged
    ∷ round (pos 16) tagged
    ∷ []

rounds-AreBytes : All (λ r. AreBytes r.buffer) (accepted rounds)
unfolding accepted
rounds-AreBytes = (omega arith, (omega arith, tt))

packet_counter_node_process-counts_example :
    (end : PacketCounterContext) × (trace : List (List Queue)) × (packet_counter_node_process node
        ctx rounds
      ≡ some (end, trace))
    × (end.total_packets ≡ 2)
    × (end.total_bytes ≡ 31)
    × (end.vlan_packets ≡ 1)
    × (ulong (end.vlan_packets + end.non_vlan_packets) ≡ end.total_packets)
unfolding packet_counter_node_create node_create accepted
packet_counter_node_process-counts_example =
    packet_counter_node_process-counts true true true (67 ∷ []) (pos 10) _ node 3 ctx rounds refl
      refl rounds-AreBytes

-- An interval that `packet_counter_node_create` refuses.
divided_by_zero :
    packet_counter_node_process node (record ctx { log_interval = pos 0 }) rounds ≡ none
unfolding packet_counter_node_process packet_counter_loop count is_vlan_packet
divided_by_zero = refl
