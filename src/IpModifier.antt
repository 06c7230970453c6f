-- ===== src/IpModifier.antt =====
-- nodes/src/ip_modifier_node.c: the constructor, the test for IPv4, the new destination address with
-- the checksum of the header, and the process loop.
pub mod Types
pub mod Carries
pub mod Sums
pub mod Rewrites
pub mod Verifies
pub mod Redirects
pub mod Loop
mod Tests
use vlan_tagger.Prelude.{
  ℕ, zero, suc, ◌+◌, ◌-◌, ◌*◌, ◌/◌, ◌%◌, ◌^◌, Bool, true, false, List, [], ◌∷◌, Option, none, some,
  ltb, ◌==◌, if◌then◌else◌, ℤ, pos, negsuc, Bytes, length, get_elem?, set,
}
use vlan_tagger.Net.{byte}
use vlan_tagger.Queue.{Queue}
use vlan_tagger.Node.{
  Node, NodeType, ip_modifier, ip_modifier_process, node_create, node_send_to_outputs, Round,
  process_loop, with_input,
}
use vlan_tagger.Frame.{at, memcpy_at, ◌>>=◌}

-- `ip_modifier_node_create`: either string may be NULL and each of the three allocations may fail. The
-- address in the context is what `inet_aton` makes of the string, `none` where it refuses it.
unfoldable pub ip_modifier_node_create :
    (Bytes → Option ℕ) → Bool → Bool → Bool → Option Bytes → Option Bytes → Option (Node × ℕ)
ip_modifier_node_create inet_aton ctx_made node_made outputs_made (some name) (some new_ip_str) =
    if ctx_made
    then (inet_aton new_ip_str >>= λ new_ip.
        node_create node_made outputs_made (some name) ip_modifier (some ip_modifier_process)
        >>= λ node. some (node, new_ip))
    else none
ip_modifier_node_create inet_aton ctx_made node_made outputs_made (some name) none = none
ip_modifier_node_create inet_aton ctx_made node_made outputs_made none new_ip_str = none

-- Two bytes, the first shifted by 8, as a `short` of 16 bits.
abbrev pub to_short : ℕ → ℤ
to_short n = if ltb n (2 ^ 15) then pos n else negsuc (2 ^ 16 - 1 - n)

abbrev pub type_field_at : Bytes → ℕ → ℤ
type_field_at buffer i = to_short (at buffer i * 256 + at buffer (i + 1))

-- A `short` compared with a constant, which is an `int`.
abbrev pub is_const : ℤ → ℕ → Bool
is_const (pos m) n = m == n
is_const (negsuc m) n = false

-- `is_ip_packet`
unfoldable pub is_ip_packet : Bytes → Bool
is_ip_packet buffer =
    let type_field = type_field_at buffer 12 in
    is_const (if is_const type_field 0x8100 then type_field_at buffer 16 else type_field) 0x0800

-- A byte of the buffer read, and written; `none` is an access outside the buffer.
abbrev pub read : Bytes → ℕ → Option ℕ
read = get_elem?

abbrev pub write : Bytes → ℕ → ℕ → Option Bytes
write buffer i c = if ltb i (length buffer) then some (set buffer i c) else none

-- `uint16_t word = (a << 8) | b`
abbrev pub word_of : ℕ → ℕ → ℕ
word_of a b = (a * 256 + b) % 2 ^ 16

-- The loop that sums the words of the header, from `ip_offset + i` on, as many as are left.
unfoldable pub sum_words : Bytes → ℕ → ℕ → ℕ → Option ℕ
sum_words buffer i zero checksum = some checksum
sum_words buffer i (suc left) checksum = read buffer i >>= λ a.
    read buffer (i + 1) >>= λ b. sum_words buffer (i + 2) left ((checksum + word_of a b) % 2 ^ 32)

-- `while (checksum >> 16)`, for at most the given number of rounds.
unfoldable pub fold_carries : ℕ → ℕ → Option ℕ
fold_carries zero checksum = if checksum / 2 ^ 16 == 0 then some checksum else none
fold_carries (suc fuel) checksum =
    let rest = fold_carries fuel ((checksum % 2 ^ 16 + checksum / 2 ^ 16) % 2 ^ 32) in
    if checksum / 2 ^ 16 == 0 then some checksum else rest

-- The rounds that are given to this loop.
abbrev pub enough : ℕ
enough = 2

-- `ip_offset`
abbrev pub ip_offset : Bytes → ℕ
ip_offset buffer = if is_const (type_field_at buffer 12) 0x8100 then 18 else 14

-- The four bytes of the address, in the order of the memory.
abbrev pub address_bytes : ℕ → Bytes
address_bytes new_ip = byte 0 new_ip ∷ byte 1 new_ip ∷ byte 2 new_ip ∷ byte 3 new_ip ∷ []

-- The checksum's two bytes: those of `~checksum`.
abbrev pub store_checksum : Bytes → ℕ → ℕ → Option Bytes
store_checksum buffer offset checksum =
    let complement : ℕ = 2 ^ 32 - 1 - checksum in
    write buffer (offset + 10) (complement / 256 % 256) >>= λ buffer'.
    write buffer' (offset + 11) (complement % 256)

-- `modify_destination_ip` with the header at `offset`.
unfoldable pub modify_at : Bytes → ℕ → ℕ → Option Bytes
modify_at buffer offset new_ip = memcpy_at buffer (offset + 16) (address_bytes new_ip) 4 >>= λ b1.
    read b1 offset >>= λ c. write b1 (offset + 10) 0 >>= λ b2. write b2 (offset + 11) 0 >>= λ b3.
    sum_words b3 offset (c % 16 * 4 / 2) 0 >>= λ sum.
    fold_carries enough sum >>= λ checksum. store_checksum b3 offset checksum

-- `modify_destination_ip`
unfoldable pub modify_destination_ip : Bytes → ℕ → Option Bytes
modify_destination_ip buffer new_ip = modify_at buffer (ip_offset buffer) new_ip

-- What the node sends on for a packet in the buffer; `none` is an access outside the buffer.
abbrev pub modified : Bytes → ℕ → Option Bytes
modified buffer new_ip =
    if is_ip_packet buffer then modify_destination_ip buffer new_ip else some buffer

-- The loop's body. The state says whether every access so far was inside the buffer.
unfoldable pub modify_round : Node → ℕ → Bool → List Queue → Bytes → ℕ → Bool × List Queue
modify_round node new_ip inside queues buffer packet_size =
    if ltb packet_size 46 then (inside, queues) else elim (modified buffer new_ip) [
      | none ↦ (false, queues)
      | some buffer' ↦ (inside, node_send_to_outputs (some node) queues (some buffer') packet_size)
    ]

-- `ip_modifier_node_process`
unfoldable pub ip_modifier_node_process : Node → ℕ → List Round → Bool × List (List Queue)
ip_modifier_node_process node new_ip rounds =
    with_input node true (process_loop (modify_round node new_ip) true rounds)
