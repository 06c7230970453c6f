-- ===== src/LoggerNode/Tests.antt =====
-- The theorems on the logger node at concrete inputs.
use vlan_tagger.Prelude.{
  ◌<◌, ◌^◌, ◌≡◌, refl, false, true, List, [], ◌∷◌, ◌++◌, some, pos, arith, Bytes, length, replicate,
  map, All,
}
use vlan_tagger.Node.{Node, custom, logger_process, Round}
use vlan_tagger.Node.Rounds.{accepted}
use vlan_tagger.Counter.Passes.{passed}
use vlan_tagger.Frame.{over}
use vlan_tagger.LoggerNode.{
  append, truncated, filling, decimal, hex2, hex4, header, hex_columns, ascii_columns, dump_line,
  dump_lines, log_packet_hex, logger_node_process,
}
use vlan_tagger.LoggerNode.Dumps.{dump_text, log_packet_hex-dump_text}
use vlan_tagger.LoggerNode.Loop.{IsPacket, due_texts, logger_node_process-due_texts}

-- "L", and the packet "Hi" with a byte that is not shown.
abbrev node_name : Bytes
node_name = 76 ∷ []

abbrev packet : Bytes
packet = 72 ∷ 105 ∷ 7 ∷ []

buffer : Bytes
buffer = over packet (replicate 1522 0)

-- "=== L: Packet #12 (3 bytes) ===", and the line "0000: 48 69 07 ", blanks, " |Hi.|".
dumped :
    log_packet_hex node_name (over packet (replicate 20 0)) 3 12
    ≡ (61 ∷ 61 ∷ 61 ∷ 32 ∷ 76 ∷ 58 ∷ 32 ∷ 80 ∷ 97 ∷ 99 ∷ 107 ∷ 101 ∷ 116 ∷ 32 ∷ 35 ∷ 49 ∷ 50 ∷ 32
        ∷ 40 ∷ 51 ∷ 32 ∷ 98 ∷ 121 ∷ 116 ∷ 101 ∷ 115 ∷ 41 ∷ 32 ∷ 61 ∷ 61 ∷ 61 ∷ 10 ∷ [])
      ++ (48 ∷ 48 ∷ 48 ∷ 48 ∷ 58 ∷ 32 ∷ 52 ∷ 56 ∷ 32 ∷ 54 ∷ 57 ∷ 32 ∷ 48 ∷ 55 ∷ 32 ∷ [])
      ++ replicate 39 32
      ++ 32 ∷ 124 ∷ 72 ∷ 105 ∷ 46 ∷ 124 ∷ []
unfolding log_packet_hex dump_lines dump_line hex_columns ascii_columns header decimal hex2 hex4
dumped = refl

-- A text that does not fit is left out, and the notice is cut off at the end of the array.
cut_off : append (1 ∷ 2 ∷ []) (filling (replicate 8190 0)) ≡ truncated (replicate 8190 0)
cut_off = refl

log_packet_hex-dump_text_example :
    (log_packet_hex node_name buffer 3 12 ≡ header node_name 12 3 ++ dump_text packet)
    × (length (header node_name 12 3 ++ dump_text packet) < 8192)
unfolding buffer
log_packet_hex-dump_text_example =
    log_packet_hex-dump_text node_name packet (replicate 1522 0) 12 (omega arith) (omega arith)
      (omega arith)

abbrev node : Node
node = record {
  name = node_name;
  node_type = custom;
  input_queue = some 0;
  output_queues = [];
  process = logger_process;
  should_exit = true;
}

abbrev round : Round
round = record { stop = false; packet_size = pos 3; buffer = packet ++ 0 ∷ []; queues = [] }

abbrev rounds : List Round
rounds = round ∷ round ∷ record { stop = true; packet_size = pos 3; buffer = []; queues = [] } ∷ []

round-IsPacket : IsPacket round
round-IsPacket = record { whole = omega arith; fits = omega arith; bytes = omega arith }

rounds-IsPacket : All IsPacket (accepted rounds)
unfolding accepted
rounds-IsPacket = (round-IsPacket, (round-IsPacket, tt))

rounds_few : length (accepted rounds) < 2 ^ 64
unfolding accepted
rounds_few = omega arith

logger_node_process-due_texts_example :
    let run = logger_node_process node (record { log_interval = pos 2; packet_count = 0 }) rounds in
    (run.0.0.packet_count ≡ length (accepted rounds))
    × (run.0.1 ≡ due_texts node 1 1 0 (accepted rounds))
    × (run.1 ≡ map (passed node) (accepted rounds))
logger_node_process-due_texts_example =
    logger_node_process-due_texts node 0 (pos 2) rounds refl (omega arith) rounds-IsPacket
      rounds_few
