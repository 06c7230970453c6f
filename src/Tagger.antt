-- ===== src/Tagger.antt =====
-- nodes/include/tagger_node.h and nodes/src/tagger_node.c: the node that puts VLAN headers into frames.
pub mod Rules
pub mod Frames
pub mod Process
pub mod Untag
pub mod Loop
mod Tests
use vlan_tagger.Prelude.{
  not, ℕ, zero, suc, ◌+◌, ◌-◌, ◌*◌, ◌/◌, ◌%◌, ◌^◌, Bool, true, false, ◌&&◌, List, [], ◌∷◌, ◌++◌,
  map, Option, none, some, ltb, leb, ◌==◌, if◌then◌else◌, ℤ, pos, negsuc, Bytes, length, drop,
}
use vlan_tagger.Queue.{Queue}
use vlan_tagger.Node.{
  Node, tagger, tagger_process, node_create, node_send_to_outputs, Round, process_loop, with_input,
}
use vlan_tagger.Net.{load16, load32, byte, ntohs, ntohl}
use vlan_tagger.Config.{TagRule}
use vlan_tagger.Frame.{
  ethernet_frame_length, eth_hlen, eth_data_len, eth_p_ip, eth_p_ipv6, eth_p_8021q, at, memcpy_at,
  ◌>>=◌,
}

-- `VLAN_HLEN` and `IP_HEADER_MIN_LEN`.
abbrev pub vlan_hlen : ℕ
vlan_hlen = 4

abbrev pub ip_header_min_len : ℕ
ip_header_min_len = 20

-- `tagger_rule_t`, in host byte order.
pub record TaggerRule : Type 0 where
  pub ip_left : ℕ
  pub ip_right : ℕ
  pub tag : ℤ

-- One round of the copying loop of `tagger_node_create`.
abbrev pub to_host : TagRule → TaggerRule
to_host r = record { ip_left = ntohl r.ip_left; ip_right = ntohl r.ip_right; tag = r.tag }

-- `tagger_node_create`: the node and its context, the `tag_rules_size` rules; each of the four
-- allocations may fail, and both pointers may be NULL.
unfoldable pub tagger_node_create :
    Bool
    → Bool
    → Bool
    → Bool
    → Option Bytes
    → Option (List TagRule)
    → Option (Node × List TaggerRule)
tagger_node_create ctx_made rules_made node_made outputs_made none tag_rules = none
tagger_node_create ctx_made rules_made node_made outputs_made (some name) none = none
tagger_node_create ctx_made rules_made node_made outputs_made (some name) (some []) = none
tagger_node_create ctx_made rules_made node_made outputs_made (some name) (some (r ∷ rs)) =
    if not ctx_made then none else if not rules_made then none else (do
      node ← node_create node_made outputs_made (some name) tagger (some tagger_process)
      some (node, map to_host (r ∷ rs)))

-- `tagger_node_get_tag`
unfoldable pub get_tag : ℕ → List TaggerRule → ℤ
get_tag addr [] = pos 0
get_tag addr (r ∷ rs) = if leb r.ip_left addr && leb addr r.ip_right then r.tag else get_tag addr rs

-- `tagger_node_get_ip_offset`: the offset of the IP header in the buffer, or `none` for NULL.
unfoldable pub get_ip_offset : Bytes → Option ℕ
get_ip_offset buffer =
    let ether_type = ntohs (load16 (at buffer 12) (at buffer 13)) in
    if leb ether_type eth_data_len
    then none
    else if ether_type == eth_p_ipv6
    then none
    else if ether_type == eth_p_8021q
    then none
    else if ether_type == eth_p_ip
    then some eth_hlen
    else none

-- The four bytes that `memcpy` reads at an offset, as a number in host byte order.
abbrev pub address_at : Bytes → ℕ → ℕ
address_at buffer i =
    ntohl (load32 (at buffer i) (at buffer (i + 1)) (at buffer (i + 2)) (at buffer (i + 3)))

-- `tagger_node_get_ip`; the destination address stands 16 bytes into the IP header.
unfoldable pub get_ip : Bytes → ℕ
get_ip ip_buffer = elim (get_ip_offset ip_buffer) [
  | none ↦ 0
  | some offset ↦ address_at ip_buffer (offset + 16)
]

-- A `uint16_t` in memory.
abbrev pub store16 : ℕ → Bytes
store16 x = byte 0 x ∷ byte 1 x ∷ []

-- `tagger_node_edit_packet`: the size that it returns and the output buffer. `vlan_id & 0x0fff` is
-- written as a remainder. With `packet_size < 12` the length of the last copy would wrap.
unfoldable pub edit_packet : Bytes → Bytes → ℕ → ℕ → Option (ℕ × Bytes)
edit_packet input output vlan_id packet_size = if ltb packet_size 12 then none else (do
  macs ← memcpy_at output 0 input 12
  with_tpid ← memcpy_at macs 12 (store16 (ntohs eth_p_8021q)) 2
  with_tci ← memcpy_at with_tpid 14 (store16 (ntohs (vlan_id % 2 ^ 12))) 2
  whole ← memcpy_at with_tci 16 (drop 12 input) (packet_size - 12)
  some ((packet_size + vlan_hlen) % 2 ^ 16, whole))

-- An `int` given as a `uint16_t`.
abbrev pub to_uint16 : ℤ → ℕ
to_uint16 (pos n) = n % 2 ^ 16
to_uint16 (negsuc n) = (2 ^ 16 - 1 - n % 2 ^ 16) % 2 ^ 16

-- What the body of the loop does with a packet: it goes on with the next, it sends the first bytes of
-- its output buffer on, or it writes outside that buffer.
pub data Handled : Type 0 where
  skipped : Handled
  sent : ℕ → Bytes → Handled
  overrun : Handled

abbrev pub handled : Option (ℕ × Bytes) → Handled
handled none = overrun
handled (some (size, out)) = sent size out

-- From the lookup on; a tag of 0 stands for no tag.
abbrev pub tag_with : ℤ → Bytes → Bytes → ℕ → Handled
tag_with (pos zero) buffer output packet_size = skipped
tag_with tag buffer output packet_size =
    handled (edit_packet buffer output (to_uint16 tag) packet_size)

-- The body of the loop of `tagger_node_process`, from `pop` on, for a packet of `packet_size` bytes.
unfoldable pub tag_packet : List TaggerRule → Bytes → Bytes → ℕ → Handled
tag_packet rules buffer output packet_size =
    if ltb packet_size (eth_hlen + ip_header_min_len)
    then skipped
    else if get_ip buffer == 0
    then skipped
    else tag_with (get_tag (get_ip buffer) rules) buffer output packet_size

-- What follows in the loop: the output buffer, which is `none` once something was written outside it,
-- and the queues.
abbrev pub settle : Node → Bytes → List Queue → Handled → Option Bytes × List Queue
settle node output queues skipped = (some output, queues)
settle node output queues (sent size out) =
    (some out, node_send_to_outputs (some node) queues (some out) size)
settle node output queues overrun = (none, queues)

-- The body of the loop of `tagger_node_process`. Behind a write outside the buffer C promises nothing;
-- the model then leaves the queues alone.
unfoldable pub tag_round :
    Node → List TaggerRule → Option Bytes → List Queue → Bytes → ℕ → Option Bytes × List Queue
tag_round node rules none queues buffer packet_size = (none, queues)
tag_round node rules (some output) queues buffer packet_size =
    settle node output queues (tag_packet rules buffer output packet_size)

-- `tagger_node_process`; without rules it returns at once. `output` is what its buffer holds first.
unfoldable pub tagger_node_process :
    Node → List TaggerRule → Bytes → List Round → Option Bytes × List (List Queue)
tagger_node_process node [] output rounds = (some output, [])
tagger_node_process node (r ∷ rs) output rounds =
    with_input node (some output) (process_loop (tag_round node (r ∷ rs)) (some output) rounds)
