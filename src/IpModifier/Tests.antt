-- ===== src/IpModifier/Tests.antt =====
-- The theorems on the IP modifier at concrete inputs.
use vlan_tagger.Prelude.{
  All, List, ◌*◌, ◌%◌, pos, negsuc, some, true, ◌≡◌, refl, false, ◌==◌, ◌++◌, [], ◌∷◌, arith, Bytes,
  replicate,
}
use vlan_tagger.Tagger.Frames.{AreBytes, be16}
use vlan_tagger.IpModifier.Types.{is_ip_packet-be16}
use vlan_tagger.Node.{Node, ip_modifier, ip_modifier_process, Round}
use vlan_tagger.Node.Rounds.{accepted, AllRounds}
use vlan_tagger.Frame.{at}
use vlan_tagger.IpModifier.{
  is_ip_packet, fold_carries, enough, modify_destination_ip, ip_modifier_node_process, modify_at,
  sum_words,
}
use vlan_tagger.IpModifier.Carries.{ones_sum, fold_carries-ones_sum}
use vlan_tagger.IpModifier.Sums.{header_sum}
use vlan_tagger.IpModifier.Redirects.{modify_destination_ip-verifies}
use vlan_tagger.IpModifier.Loop.{IsBuffer, Passes, ip_modifier_node_process-Passes}

-- An IPv4 packet behind a VLAN header.
abbrev labelled : Bytes
labelled = replicate 12 1 ++ 0x81 ∷ 0 ∷ 0 ∷ 100 ∷ 0x08 ∷ 0 ∷ 0x45 ∷ 0 ∷ []

is_ip_packet-be16_example : is_ip_packet labelled ≡ (be16 labelled 12 == 0x0800)
is_ip_packet-be16_example = is_ip_packet-be16 labelled (omega arith)

labelled_refused : is_ip_packet labelled ≡ false
unfolding is_ip_packet
labelled_refused = refl

fold_carries-ones_sum_example : fold_carries enough 0x2fffe ≡ some 1
fold_carries-ones_sum_example = fold_carries-ones_sum 0x2fffe (omega arith)

-- The usual example of an IPv4 header, with the checksum 0xb861, in a buffer of 1522 bytes.
abbrev buffer : Bytes
buffer =
    replicate 12 1
    ++ 0x08
      ∷ 0
      ∷ 0x45
      ∷ 0
      ∷ 0
      ∷ 0x73
      ∷ 0
      ∷ 0
      ∷ 0x40
      ∷ 0
      ∷ 0x40
      ∷ 0x11
      ∷ 0xb8
      ∷ 0x61
      ∷ 0xc0
      ∷ 0xa8
      ∷ 0
      ∷ 1
      ∷ 0xc0
      ∷ 0xa8
      ∷ 0
      ∷ 0xc7
      ∷ replicate 1488 0

-- The same address again gives the same checksum.
unchanged : modify_destination_ip buffer 0xc700a8c0 ≡ some buffer
unfolding modify_destination_ip modify_at sum_words fold_carries vlan_tagger.Frame.memcpy_at
unchanged = refl

modify_destination_ip-verifies_example :
    (b' : Bytes) × (modify_destination_ip buffer 0x0100007f ≡ some b')
    × (ones_sum (header_sum b' 14 (at b' 14 % 16 * 2)) ≡ 65535)
modify_destination_ip-verifies_example =
    modify_destination_ip-verifies buffer 0x0100007f (omega arith) (omega arith) (omega arith)

abbrev node : Node
node = record {
  name = 73 ∷ [];
  node_type = ip_modifier;
  input_queue = some 0;
  output_queues = [];
  process = ip_modifier_process;
  should_exit = true;
}

abbrev rounds : List Round
rounds =
    record { stop = false; packet_size = pos 129; buffer = buffer; queues = [] }
    ∷ record { stop = false; packet_size = pos 45; buffer = buffer; queues = [] }
    ∷ record { stop = false; packet_size = negsuc 0; buffer = buffer; queues = [] }
    ∷ []

buffer-AreBytes : AreBytes buffer
buffer-AreBytes = omega arith

rounds-IsBuffer : All IsBuffer (accepted rounds)
unfolding accepted
rounds-IsBuffer = (
  record { size = refl; bytes = buffer-AreBytes },
  (record { size = refl; bytes = buffer-AreBytes }, tt),
)

ip_modifier_node_process-Passes_example :
    let run = ip_modifier_node_process node 0x0100007f rounds in
    (run.0 ≡ true) × AllRounds (Passes node 0x0100007f) (accepted rounds) run.1
ip_modifier_node_process-Passes_example =
    ip_modifier_node_process-Passes node 0 0x0100007f rounds refl rounds-IsBuffer
