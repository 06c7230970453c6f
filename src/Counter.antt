-- ===== src/Counter.antt =====
-- nodes/include/packet_counter_node.h and nodes/src/packet_counter_node.c, and
-- nodes/src/collector_node.c, which passes its packets on and keeps nothing.
pub mod Loop
pub mod Counts
pub mod Passes
mod Tests
use vlan_tagger.Prelude.{
  not, ℕ, zero, suc, ◌+◌, ◌-◌, ◌*◌, ◌%◌, ◌^◌, Bool, true, false, List, [], ◌∷◌, Option, none, some,
  ltb, ◌==◌, if◌then◌else◌, ℤ, pos, negsuc, Bytes, get_or,
}
use vlan_tagger.Queue.{Queue}
use vlan_tagger.Frame.{◌>>=◌}
use vlan_tagger.Node.{
  Node, packet_counter_process, collector_process, NodeType, custom, node_create,
  node_send_to_outputs, Round, process_loop, with_input,
}

-- `PacketCounterContext`; an `unsigned long` has 64 bits.
pub record PacketCounterContext : Type 0 where
  pub total_packets : ℕ
  pub total_bytes : ℕ
  pub vlan_packets : ℕ
  pub non_vlan_packets : ℕ
  pub log_interval : ℤ

abbrev pub ulong : ℕ → ℕ
ulong n = n % 2 ^ 64

-- `packet_counter_node_create`: the node and its context; NULL for an interval below 1, and where one
-- of the three allocations fails.
unfoldable pub packet_counter_node_create :
    Bool → Bool → Bool → Option Bytes → ℤ → Option (Node × PacketCounterContext)
packet_counter_node_create ctx_made node_made outputs_made none log_interval = none
packet_counter_node_create ctx_made node_made outputs_made (some name) (negsuc n) = none
packet_counter_node_create ctx_made node_made outputs_made (some name) (pos zero) = none
packet_counter_node_create ctx_made node_made outputs_made (some name) (pos (suc n)) =
    if not ctx_made then none else (do
      node ← node_create node_made outputs_made (some name) custom (some packet_counter_process)
      some (
        node,
        record {
          total_packets = 0;
          total_bytes = 0;
          vlan_packets = 0;
          non_vlan_packets = 0;
          log_interval = pos (suc n);
        },
      ))

-- `collector_node_create`
unfoldable pub collector_node_create : Bool → Bool → Option Bytes → Option Node
collector_node_create node_made outputs_made none = none
collector_node_create node_made outputs_made (some name) =
    node_create node_made outputs_made (some name) custom (some collector_process)

-- `is_vlan_packet`; the two bytes are added with their weights for `<<` and `|`.
unfoldable pub is_vlan_packet : Bytes → ℕ → Bool
is_vlan_packet buffer size =
    if ltb size 16 then false else get_or buffer 12 0 * 256 + get_or buffer 13 0 == 0x8100

-- The statistics of one packet.
unfoldable pub count : PacketCounterContext → Bytes → ℕ → PacketCounterContext
count ctx buffer packet_size = record ctx {
  total_packets = ulong (ctx.total_packets + 1);
  total_bytes = ulong (ctx.total_bytes + packet_size);
  vlan_packets =
      if is_vlan_packet buffer packet_size then ulong (ctx.vlan_packets + 1) else ctx.vlan_packets;
  non_vlan_packets =
      if is_vlan_packet buffer packet_size
      then ctx.non_vlan_packets
      else ulong (ctx.non_vlan_packets + 1);
}

-- `n % interval == 0`, with the interval as an unsigned long; `none` is a division by zero.
abbrev pub is_multiple : ℕ → ℤ → Option Bool
is_multiple n (pos zero) = none
is_multiple n (pos (suc i)) = some (n % suc i == 0)
is_multiple n (negsuc i) = some (n % (2 ^ 64 - suc i) == 0)

-- What comes behind the test for the line of the log, which is left out.
abbrev pub behind_line {ℓ} : {A : Type ℓ} → Option Bool → Option A → Option A
behind_line none rest = none
behind_line (some logged) rest = rest

-- The packets that are sent behind a first one.
abbrev pub sent_before :
    List Queue
    → Option (PacketCounterContext × List (List Queue))
    → Option (PacketCounterContext × List (List Queue))
sent_before queues none = none
sent_before queues (some (ctx, trace)) = some (ctx, queues ∷ trace)

-- The loop of `packet_counter_node_process`, without the text of the lines that go to the log.
unfoldable pub packet_counter_loop :
    Node → PacketCounterContext → List Round → Option (PacketCounterContext × List (List Queue))
packet_counter_loop node ctx [] = some (ctx, [])
packet_counter_loop node ctx (r ∷ rounds) = elim r.stop [
  | true ↦ some (ctx, [])
  | false ↦ elim r.packet_size [
    | negsuc n ↦ some (ctx, [])
    | pos zero ↦ packet_counter_loop node ctx rounds
    | pos (suc n) ↦
        let counted = count ctx r.buffer (suc n) in
        let rest = packet_counter_loop node counted rounds in
        behind_line (is_multiple counted.total_packets counted.log_interval)
          (sent_before (node_send_to_outputs (some node) r.queues (some r.buffer) (suc n)) rest)
  ]
]

-- `packet_counter_node_process`: the statistics and the queues behind each packet, or `none` for
-- a division by zero.
unfoldable pub packet_counter_node_process :
    Node → PacketCounterContext → List Round → Option (PacketCounterContext × List (List Queue))
packet_counter_node_process node ctx rounds = elim node.input_queue [
  | none ↦ some (ctx, [])
  | some input ↦ packet_counter_loop node ctx rounds
]

-- `collector_node_process`
unfoldable pub collector_node_process : Node → List Round → List (List Queue)
collector_node_process node rounds =
    (with_input {0} node tt (
      process_loop
        (λ s queues buffer packet_size.
          (tt, node_send_to_outputs (some node) queues (some buffer) packet_size))
        tt rounds)).1
