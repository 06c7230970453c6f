-- ===== src/Tagger/Tests.antt =====
-- tests/node_tests/tagger_node_test.c, and the theorems on the tagger at concrete inputs.
use vlan_tagger.Prelude.{
  false, true, some, ℕ, ◌+◌, ◌≤◌, ◌<◌, ◌≡◌, refl, inr, List, [], ◌∷◌, ◌++◌, map, arith, pos, Bytes,
  length, replicate, take, drop, All-replicate, All-append, length-append, length-replicate,
}
use vlan_tagger.Net.{ntohl}
use vlan_tagger.Config.{TagRule}
use vlan_tagger.Config.Valid.{AreApart}
use vlan_tagger.Frame.{ethernet_frame_length, over}
use vlan_tagger.Tagger.Rules.{get_tag-In, get_tag-none}
use vlan_tagger.Tagger.Frames.{tagged, be16, be32, AreBytes}
use vlan_tagger.Tagger.Process.{
  IsIpv4, Gives, tag_packet-sent, tag_packet-overrun, tag_packet-skipped,
}
use vlan_tagger.Node.{Node, tagger, tagger_process, Round}
use vlan_tagger.Node.Rounds.{accepted}
use vlan_tagger.Tagger.Loop.{IsFrame, Intact, AllTags, tagger_node_process-AllTags}
use vlan_tagger.Tagger.Untag.{untagged, tag_packet-untagged}
use vlan_tagger.Tagger.{tagger_node_process, to_host, get_tag, skipped, sent, overrun, tag_packet}

-- prepare_dummy_rule: 192.168.1.0 to 192.168.1.255
abbrev dummy_rule : TagRule
dummy_rule = record { ip_left = ntohl 0xc0a80100; ip_right = ntohl 0xc0a801ff; tag = pos 100 }

abbrev rules : List TagRule
rules = dummy_rule ∷ []

-- build_ipv4_packet with 192.168.1.10, and `rest` behind the IP header
abbrev header : Bytes
header =
    0xaa ∷ 0xbb ∷ 0xcc ∷ 0xdd ∷ 0xee ∷ 0xff ∷ 0x11 ∷ 0x22 ∷ 0x33 ∷ 0x44 ∷ 0x55 ∷ 0x66 ∷ 0x08 ∷ 0x00
    ∷ 0x45 ∷ 0 ∷ 0 ∷ 24 ∷ 0 ∷ 0 ∷ 0 ∷ 0 ∷ 64 ∷ 6 ∷ 0 ∷ 0 ∷ 0 ∷ 0 ∷ 0 ∷ 0 ∷ 192 ∷ 168 ∷ 1 ∷ 10 ∷ []

abbrev frame : Bytes → Bytes
frame rest = header ++ rest

abbrev packet : Bytes
packet = frame (0 ∷ 0 ∷ 0 ∷ 0 ∷ [])

buffer : Bytes
buffer = replicate ethernet_frame_length 0xee

length-buffer : length buffer ≡ ethernet_frame_length
unfolding buffer
length-buffer = length-replicate {A = ℕ} ethernet_frame_length 0xee

-- The frame behind its header is of any length.
zeros : ℕ → Bytes
zeros n = replicate n 0

frame-IsIpv4 : (rest : Bytes) → AreBytes rest → IsIpv4 (frame rest)
frame-IsIpv4 rest h = record {
  bytes = All-append (λ c. c < 256) header rest (omega arith) h;
  long = omega arith;
  ether_type = refl;
  address = omega arith;
}

frame-Gives : (rest : Bytes) → Gives rules 0 (frame rest) 100
unfolding ntohl
frame-Gives rest = record {
  rule = dummy_rule;
  at_i = refl;
  holds = omega arith;
  tag = refl;
  vid_pos = omega arith;
  vid_small = omega arith;
}

rules-AreApart : AreApart rules
rules-AreApart = (tt, tt)

tag_packet-sent_example :
    tag_packet (map to_host rules) (over packet buffer) buffer 38
    ≡ sent 42 (tagged packet 100 ++ drop 42 buffer)
tag_packet-sent_example =
    tag_packet-sent rules 0 100 packet buffer buffer rules-AreApart (frame-IsIpv4 _ (omega arith))
      (frame-Gives _) length-buffer (omega arith)

get_tag-In_example : get_tag (be32 packet 30) (map to_host rules) ≡ pos 100
unfolding ntohl
get_tag-In_example =
    get_tag-In rules 0 (be32 packet 30) dummy_rule rules-AreApart refl (omega arith)

get_tag-none_example : get_tag 1 (map to_host rules) ≡ pos 0
unfolding ntohl
get_tag-none_example = get_tag-none rules 1 (omega arith)

length-long_frame : length (frame (zeros 1485)) ≡ 1519
unfolding zeros
length-long_frame =
    omega (arith, length-append header (replicate 1485 0), length-replicate {A = ℕ} 1485 0)

zeros-AreBytes : (n : ℕ) → AreBytes (zeros n)
unfolding zeros
zeros-AreBytes n = All-replicate (λ c. c < 256) n 0 (omega arith)

-- 1519 bytes are within the ring's limit and one more than the tagger's buffer has room for.
tag_packet-overrun_example :
    tag_packet
      (map to_host rules)
      (over (frame (zeros 1485)) buffer)
      buffer
      (length (frame (zeros 1485)))
    ≡ overrun
tag_packet-overrun_example =
    tag_packet-overrun rules 0 100 (frame (zeros 1485)) buffer buffer rules-AreApart
      (frame-IsIpv4 (zeros 1485) (zeros-AreBytes 1485)) (frame-Gives (zeros 1485)) length-buffer
      (omega (arith, length-long_frame))

-- The same frame to 192.168.2.10, which no rule holds.
abbrev other_packet : Bytes
other_packet = take 32 packet ++ (2 ∷ 10 ∷ 0 ∷ 0 ∷ 0 ∷ 0 ∷ [])

tag_packet-skipped_example :
    tag_packet (map to_host rules) (over other_packet buffer) buffer 38 ≡ skipped
unfolding ntohl
tag_packet-skipped_example =
    tag_packet-skipped rules other_packet buffer buffer (omega arith)
      (inr (inr (inr (omega arith))))

tag_packet-untagged_example :
    (be16 packet 12 ≡ 0x0800)
    × (length packet ≤ 1518)
    × (42 ≡ length packet + 4)
    × (be16 (tagged packet 100 ++ drop 42 buffer) 12 ≡ 0x8100)
    × (untagged (take 42 (tagged packet 100 ++ drop 42 buffer)) ≡ packet)
tag_packet-untagged_example =
    tag_packet-untagged (map to_host rules) packet buffer buffer
      (tagged packet 100 ++ drop 42 buffer) 42 (omega arith) length-buffer (omega arith)
      tag_packet-sent_example

abbrev node : Node
node = record {
  name = 84 ∷ [];
  node_type = tagger;
  input_queue = some 1;
  output_queues = 3 ∷ [];
  process = tagger_process;
  should_exit = true;
}

-- The packet of the unit test, no packet, and the packet that no rule holds.
abbrev round : ℕ → Bytes → Round
round size p = record { stop = false; packet_size = pos size; buffer = p; queues = [] }

abbrev rounds : List Round
rounds = round 38 packet ∷ round 0 packet ∷ round 38 other_packet ∷ []

packet-IsFrame : IsFrame (round 38 packet)
packet-IsFrame = record { whole = omega arith; fits = omega arith; bytes = omega arith }

other_packet-IsFrame : IsFrame (round 38 other_packet)
other_packet-IsFrame = record { whole = omega arith; fits = omega arith; bytes = omega arith }

tagger_node_process-AllTags_example :
    let run = tagger_node_process node (map to_host rules) buffer rounds in
    Intact run.0 × AllTags node (round 38 packet ∷ round 38 other_packet ∷ []) run.1
unfolding accepted
tagger_node_process-AllTags_example =
    tagger_node_process-AllTags node 1 (to_host dummy_rule) [] buffer rounds refl length-buffer
      (packet-IsFrame, (other_packet-IsFrame, tt))
