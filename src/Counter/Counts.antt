-- ===== src/Counter/Counts.antt =====
-- nodes/src/packet_counter_node.c: the statistics are those of the packets that came.
use vlan_tagger.Prelude.{
  Bool, All, ◌∙◌, leb, ◌==◌, ◌&&◌, ℤ, pos, negsuc, ◌<◌, ap, ℕ, zero, suc, ◌+◌, ◌^◌, ◌≡◌, List, [],
  ◌∷◌, some, Bytes, length, arith, if◌then◌else◌, true, false,
}
use vlan_tagger.Queue.{Queue}
use vlan_tagger.Node.{Node, node_create, node_send_to_outputs, Round, process_loop}
use vlan_tagger.Node.Rounds.{accepted, bytes_of, run_all, process_loop-accepted, with_input-some}
use vlan_tagger.Frame.{at}
use vlan_tagger.Tagger.Frames.{AreBytes, at-lt}
use vlan_tagger.Counter.Loop.{counter_body, packet_counter_node_process-process_loop}
use vlan_tagger.Counter.{
  PacketCounterContext, packet_counter_node_create, ulong, is_vlan_packet, count,
  packet_counter_node_process,
}

-- The bytes of the packets together, and how many of them have at least 16 bytes with the TPID 81 00
-- behind the two addresses.
abbrev pub all_bytes : List Round → ℕ
all_bytes [] = 0
all_bytes (r ∷ rs) = bytes_of r + all_bytes rs

abbrev pub has_tpid : Round → Bool
has_tpid r = leb 16 (bytes_of r) && (at r.buffer 12 == 0x81) && (at r.buffer 13 == 0x00)

abbrev pub tagged_packets : List Round → ℕ
tagged_packets [] = 0
tagged_packets (r ∷ rs) = (if has_tpid r then 1 else 0) + tagged_packets rs

is_vlan_packet-has_tpid :
    (r : Round) → AreBytes r.buffer → is_vlan_packet r.buffer (bytes_of r) ≡ has_tpid r
unfolding is_vlan_packet
is_vlan_packet-has_tpid r bytes = ground (arith, at-lt r.buffer 12 bytes, at-lt r.buffer 13 bytes)

run_all-counts :
    (send : List Queue → Bytes → ℕ → List Queue) (rs : List Round) (ctx : PacketCounterContext)
    → All (λ r. AreBytes r.buffer) rs
    → let end =
        (run_all
          (λ s queues buffer size. (count s buffer size, send queues buffer size))
          ctx
          rs).0 in
      (ulong end.total_packets ≡ ulong (ctx.total_packets + length rs))
      × (ulong end.total_bytes ≡ ulong (ctx.total_bytes + all_bytes rs))
      × (ulong end.vlan_packets ≡ ulong (ctx.vlan_packets + tagged_packets rs))
      × (ulong (end.vlan_packets + end.non_vlan_packets)
          ≡ ulong (ctx.vlan_packets + ctx.non_vlan_packets + length rs))
unfolding count
run_all-counts send [] ctx h = (omega arith, omega arith, omega arith, omega arith)
run_all-counts send (r ∷ rs) ctx h =
    let rest = run_all-counts send rs (count ctx r.buffer (bytes_of r)) h.1 in
    let same = is_vlan_packet-has_tpid r h.0 in
    (
      omega (arith, rest.0),
      omega (arith, rest.1),
      ground (arith, rest.2, same),
      ground (arith, rest.3, same),
    )

-- Four counters of 64 bits.
abbrev pub Fits : PacketCounterContext → Type 0
Fits ctx =
    (ctx.total_packets < 2 ^ 64)
    × (ctx.total_bytes < 2 ^ 64)
    × (ctx.vlan_packets < 2 ^ 64)
    × (ctx.non_vlan_packets < 2 ^ 64)

count-Fits :
    (ctx : PacketCounterContext) (buffer : Bytes) (size : ℕ)
    → Fits ctx
    → Fits (count ctx buffer size)
unfolding count
count-Fits ctx buffer size h = (omega arith, omega arith, ground (arith, h.2), ground (arith, h.3))

run_all-Fits :
    (send : List Queue → Bytes → ℕ → List Queue) (rs : List Round) (ctx : PacketCounterContext)
    → Fits ctx
    → Fits
        (run_all (λ s queues buffer size. (count s buffer size, send queues buffer size)) ctx rs).0
run_all-Fits send [] ctx h = h
run_all-Fits send (r ∷ rs) ctx h =
    run_all-Fits send rs (count ctx r.buffer (bytes_of r)) (count-Fits ctx r.buffer (bytes_of r) h)

created :
    (ctx_made node_made outputs_made : Bool) (name : Bytes) (log_interval : ℤ) (node : Node)
    (ctx : PacketCounterContext)
    → packet_counter_node_create ctx_made node_made outputs_made (some name) log_interval
      ≡ some (node, ctx)
    → ((i : ℕ) × (ctx.log_interval ≡ pos (suc i)))
      × (ctx.total_packets ≡ 0)
      × (ctx.total_bytes ≡ 0)
      × (ctx.vlan_packets ≡ 0)
      × (ctx.non_vlan_packets ≡ 0)
unfolding packet_counter_node_create node_create
created c n o name (negsuc i) node ctx e = absurd (cc)
created c n o name (pos zero) node ctx e = absurd (cc)
created false n o name (pos (suc i)) node ctx e = absurd (cc)
created true false o name (pos (suc i)) node ctx e = absurd (cc)
created true true false name (pos (suc i)) node ctx e = absurd (cc)
created true true true name (pos (suc i)) node ctx e =
    let zeros : PacketCounterContext = record {
      total_packets = 0;
      total_bytes = 0;
      vlan_packets = 0;
      non_vlan_packets = 0;
      log_interval = pos (suc i);
    } in
    let same : ctx ≡ zeros = cc in
    (
      (i, ap (λ c. c.log_interval) same),
      ap (λ c. c.total_packets) same,
      ap (λ c. c.total_bytes) same,
      ap (λ c. c.vlan_packets) same,
      ap (λ c. c.non_vlan_packets) same,
    )

-- The loop of a packet counter with an input queue, which began with the context of
-- `packet_counter_node_create` and got packets of bytes, comes to its end without a division by zero,
-- and its statistics are then the number of the packets that it got, their bytes together and the number
-- of those of at least 16 bytes that have the TPID 81 00 behind their addresses, each modulo 2^64; and
-- the packets with and without a VLAN header make up the number of packets, also modulo 2^64.
pub packet_counter_node_process-counts :
    (ctx_made node_made outputs_made : Bool) (name : Bytes) (log_interval : ℤ) (made node : Node)
    (input : ℕ) (ctx : PacketCounterContext) (rounds : List Round)
    → packet_counter_node_create ctx_made node_made outputs_made (some name) log_interval
      ≡ some (made, ctx)
    → node.input_queue ≡ some input
    → All (λ r. AreBytes r.buffer) (accepted rounds)
    → let packets = accepted rounds in
      (end : PacketCounterContext) × (trace : List (List Queue)) × (packet_counter_node_process node
          ctx rounds
        ≡ some (end, trace))
      × (end.total_packets ≡ ulong (length packets))
      × (end.total_bytes ≡ ulong (all_bytes packets))
      × (end.vlan_packets ≡ ulong (tagged_packets packets))
      × (ulong (end.vlan_packets + end.non_vlan_packets) ≡ end.total_packets)
packet_counter_node_process-counts c n o name log_interval made node input ctx rounds e has_input
      h =
    let send : List Queue → Bytes → ℕ → List Queue =
      λ queues buffer size. node_send_to_outputs (some node) queues (some buffer) size in
    let first = created c n o name log_interval made ctx e in
    let counts = run_all-counts send (accepted rounds) ctx h in
    let fits = run_all-Fits send (accepted rounds) ctx (
      omega (arith, first.1),
      omega (arith, first.2),
      omega (arith, first.3),
      omega (arith, first.4),
    ) in
    let end = run_all (counter_body node) ctx (accepted rounds) in
    (
      end.0,
      end.1,
      packet_counter_node_process-process_loop node first.0.0 ctx rounds first.0.1
          ∙ ap some (
              with_input-some node input ctx (process_loop (counter_body node) ctx rounds) has_input
              ∙ process_loop-accepted (counter_body node) ctx rounds),
      omega (arith, counts.0, first.1, fits.0),
      omega (arith, counts.1, first.2, fits.1),
      omega (arith, counts.2, first.3, fits.2),
      omega (arith, counts.0, counts.3, first.1, first.3, first.4, fits.0),
    )
