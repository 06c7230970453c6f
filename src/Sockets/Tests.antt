-- ===== src/Sockets/Tests.antt =====
-- The theorems on the packet sockets at concrete inputs.
use vlan_tagger.Prelude.{
  ◌≡◌, refl, ◌≢◌, ◌↔◌, true, false, List, [], ◌∷◌, some, none, ℤ, pos, negsuc, Bytes, ◌==◌,
  replicate,
}
use vlan_tagger.Node.{Node, sniffer, sender, sniffer_process, sender_process, Round}
use vlan_tagger.Strikes.{FourFailures}
use vlan_tagger.Sockets.{
  setup_packet_socket, bind_socket, System, PacketContext, no_address, packet_node_create,
}
use vlan_tagger.Sockets.Process.{
  sniffer_loop, sender_loop, sniffer_node_process, SendRound, sender_node_process, gave_up,
}
use vlan_tagger.Sockets.Opens.{CleanNode, packet_node_create-CleanNode}
use vlan_tagger.Sockets.Hears.{before_stop, failures, all_sent, sniffer_node_process_hears}
use vlan_tagger.Sockets.Sends.{before_flag, outcomes, contents, sender_node_process_sends}

-- A system with one interface, number 2, whose name is "eth0"; `bind` works.
abbrev eth0 : Bytes
eth0 = 101 ∷ 116 ∷ 104 ∷ 48 ∷ []

abbrev one_interface : System
one_interface = record {
  socket = some 5;
  ioctl = λ dev_name. elim dev_name [
    | [] ↦ none
    | c ∷ cs ↦ elim (c == 101) [ true ↦ some 2 | false ↦ none ]
  ];
  bind = λ saddr_ll. saddr_ll.sll_ifindex == 2;
}

abbrev with_failing_bind : System
with_failing_bind = record one_interface { bind = λ saddr_ll. false }

-- `bind` fails, and the socket is closed.
refused :
    (packet_node_create sniffer sniffer_process with_failing_bind true true true
      (some eth0)
      (some eth0)
      (3 ∷ []))
    ≡ (none, 3 ∷ [])
unfolding packet_node_create setup_packet_socket bind_socket
refused = refl

packet_node_create-CleanNode_example : CleanNode one_interface eth0 (3 ∷ []) (
    packet_node_create sniffer sniffer_process one_interface true true true
      (some eth0)
      (some eth0)
      (3 ∷ []))
packet_node_create-CleanNode_example =
    packet_node_create-CleanNode sniffer sniffer_process one_interface true true true eth0 eth0
      (3 ∷ [])

abbrev end_node : Node
end_node = record {
  name = eth0;
  node_type = sender;
  input_queue = some 0;
  output_queues = [];
  process = sender_process;
  should_exit = true;
}

abbrev end_context : PacketContext
end_context = record { socket = 5; saddr_ll = no_address }

abbrev round : ℤ → Round
round z = record { stop = false; packet_size = z; buffer = replicate 60 7; queues = [] }

-- Three failures, a frame, four failures.
abbrev broken : List Round
broken =
    round (negsuc 0)
    ∷ round (negsuc 0)
    ∷ round (negsuc 0)
    ∷ round (pos 60)
    ∷ round (negsuc 0)
    ∷ round (negsuc 0)
    ∷ round (negsuc 0)
    ∷ round (negsuc 0)
    ∷ []

broken_gave_up : (sniffer_node_process end_node end_context (5 ∷ 3 ∷ []) broken).ended ≡ gave_up
unfolding sniffer_node_process sniffer_loop
broken_gave_up = refl

sniffer_node_process_hears_example :
    let run = sniffer_node_process end_node end_context (5 ∷ 3 ∷ []) broken in
    let heard = before_stop broken in
    ((run.ended ≡ gave_up) ↔ FourFailures (failures heard))
    × (run.ended ≡ gave_up → run.raised ≡ true)
    × (run.ended ≢ gave_up → run.trace ≡ all_sent end_node heard)
sniffer_node_process_hears_example =
    sniffer_node_process_hears end_node end_context (5 ∷ 3 ∷ []) broken

abbrev send_round : ℤ → SendRound
send_round z = record {
  stop = false;
  rcv_len = z;
  buffer = replicate 1522 7;
  stop_later = false;
  failed = false;
}

-- A frame, one of 1518 bytes, a failed `pop`, and another frame.
abbrev to_send : List SendRound
to_send =
    send_round (pos 2) ∷ send_round (pos 1518) ∷ send_round (negsuc 0) ∷ send_round (pos 1) ∷ []

sent :
    (sender_node_process end_node end_context (5 ∷ []) to_send).trace ≡ (7 ∷ 7 ∷ []) ∷ (7 ∷ []) ∷ []
unfolding sender_node_process sender_loop
sent = refl

sender_node_process_sends_example :
    let run = sender_node_process end_node end_context (5 ∷ []) to_send in
    let met = before_flag to_send in
    ((run.ended ≡ gave_up) ↔ FourFailures (outcomes met))
    × (run.ended ≡ gave_up → (run.raised ≡ true) × (run.fds ≡ 5 ∷ []))
    × (run.ended ≢ gave_up → run.trace ≡ contents met)
sender_node_process_sends_example =
    sender_node_process_sends end_node 0 end_context (5 ∷ []) to_send refl
