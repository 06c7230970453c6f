-- ===== src/Counter/Loop.antt =====
-- nodes/src/packet_counter_node.c: with a positive interval its loop is the one of the other nodes.
use vlan_tagger.Prelude.{
  ℕ, zero, suc, ◌≡◌, refl, ap, ◌∙◌, sym, Bool, true, false, List, [], ◌∷◌, Option, none, some,
  Option-cases, inl, inr, ℤ, pos, negsuc, Bytes,
}
use vlan_tagger.Queue.{Queue}
use vlan_tagger.Node.{Node, node_send_to_outputs, Round, process_loop, with_input}
use vlan_tagger.Node.Rounds.{with_input-some, with_input-none}
use vlan_tagger.Counter.{
  PacketCounterContext, count, is_multiple, behind_line, sent_before, packet_counter_loop,
  packet_counter_node_process,
}

-- What the loop does with a packet.
abbrev pub counter_body :
    Node → PacketCounterContext → List Queue → Bytes → ℕ → PacketCounterContext × List Queue
counter_body node s queues buffer packet_size =
    (count s buffer packet_size, node_send_to_outputs (some node) queues (some buffer) packet_size)

count-log_interval :
    (ctx : PacketCounterContext) (buffer : Bytes) (n : ℕ)
    → (count ctx buffer n).log_interval ≡ ctx.log_interval
unfolding count
count-log_interval ctx buffer n = refl

round-process_loop :
    (node : Node) (i : ℕ) (rounds : List Round) (stop : Bool) (packet_size : ℤ) (buffer : Bytes)
    (queues : List Queue) (ctx : PacketCounterContext)
    → ctx.log_interval ≡ pos (suc i)
    → ((c : PacketCounterContext)
        → c.log_interval ≡ pos (suc i)
        → packet_counter_loop node c rounds ≡ some (process_loop (counter_body node) c rounds))
    → let r : Round = record {
      stop = stop;
      packet_size = packet_size;
      buffer = buffer;
      queues = queues;
    } in
      packet_counter_loop node ctx (r ∷ rounds)
      ≡ some (process_loop (counter_body node) ctx (r ∷ rounds))
unfolding packet_counter_loop process_loop
round-process_loop node i rounds true z buffer queues ctx e rest = refl
round-process_loop node i rounds false (negsuc n) buffer queues ctx e rest = refl
round-process_loop node i rounds false (pos zero) buffer queues ctx e rest = rest ctx e
round-process_loop node i rounds false (pos (suc n)) buffer queues ctx e rest =
    let kept : (count ctx buffer (suc n)).log_interval ≡ pos (suc i) =
      count-log_interval ctx buffer (suc n) ∙ e in
    let counted = count ctx buffer (suc n) in
    let queues' = node_send_to_outputs (some node) queues (some buffer) (suc n) in
    ap
      (λ z.
        behind_line (is_multiple counted.total_packets z)
          (sent_before queues' (packet_counter_loop node counted rounds)))
      kept
    ∙ ap (sent_before queues') (rest counted kept)

loop-process_loop :
    (node : Node) (i : ℕ) (rounds : List Round) (ctx : PacketCounterContext)
    → ctx.log_interval ≡ pos (suc i)
    → packet_counter_loop node ctx rounds ≡ some (process_loop (counter_body node) ctx rounds)
loop-process_loop node i [] ctx e = unfold packet_counter_loop process_loop in refl
loop-process_loop node i (r ∷ rounds) ctx e =
    round-process_loop node i rounds r.stop r.packet_size r.buffer r.queues ctx e
      (loop-process_loop node i rounds)

process-some :
    (node : Node) (input : ℕ) (ctx : PacketCounterContext) (rounds : List Round)
    → node.input_queue ≡ some input
    → packet_counter_node_process node ctx rounds ≡ packet_counter_loop node ctx rounds
unfolding packet_counter_node_process
process-some node input ctx rounds e =
    ap
      (λ q.
        let o : Option (PacketCounterContext × List (List Queue)) = elim q [
          | none ↦ some (ctx, [])
          | some i ↦ packet_counter_loop node ctx rounds
        ] in
        o)
      e

process-none :
    (node : Node) (ctx : PacketCounterContext) (rounds : List Round)
    → node.input_queue ≡ none
    → packet_counter_node_process node ctx rounds ≡ some (ctx, [])
unfolding packet_counter_node_process
process-none node ctx rounds e =
    ap
      (λ q.
        let o : Option (PacketCounterContext × List (List Queue)) = elim q [
          | none ↦ some (ctx, [])
          | some i ↦ packet_counter_loop node ctx rounds
        ] in
        o)
      e

-- With a positive interval nothing is divided by zero.
pub packet_counter_node_process-process_loop :
    (node : Node) (i : ℕ) (ctx : PacketCounterContext) (rounds : List Round)
    → ctx.log_interval ≡ pos (suc i)
    → packet_counter_node_process node ctx rounds
      ≡ some (with_input node ctx (process_loop (counter_body node) ctx rounds))
packet_counter_node_process-process_loop node i ctx rounds e =
    let run = process_loop (counter_body node) ctx rounds in
    elim (Option-cases node.input_queue) [
      | inl no_input ↦
          process-none node ctx rounds no_input
          ∙ ap some (sym (with_input-none node ctx run no_input))
      | inr (input, has_input) ↦
          process-some node input ctx rounds has_input
          ∙ (loop-process_loop node i rounds ctx e
              ∙ ap some (sym (with_input-some node input ctx run has_input)))
    ]
