-- ===== src/Counter/Passes.antt =====
-- nodes/src/collector_node.c and nodes/src/packet_counter_node.c: what they do to the queues.
use vlan_tagger.Prelude.{
  ℕ, suc, pos, ◌≡◌, refl, ap, ◌∙◌, sym, List, [], ◌∷◌, some, Bytes, map, Option-cases, inl, inr,
}
use vlan_tagger.Queue.{Queue}
use vlan_tagger.Node.{Node, node_send_to_outputs, Round, process_loop, with_input}
use vlan_tagger.Node.Rounds.{
  accepted, bytes_of, run_all, process_loop-accepted, with_input-some, with_input-none,
}
use vlan_tagger.Counter.Loop.{counter_body, packet_counter_node_process-process_loop}
use vlan_tagger.Counter.{
  PacketCounterContext, count, packet_counter_node_process, collector_node_process,
}

-- The round's queues with its packet sent to the node's outputs.
abbrev pub passed : Node → Round → List Queue
passed node r = node_send_to_outputs (some node) r.queues (some r.buffer) (bytes_of r)

run_all-passed {ℓ} :
    {S : Type ℓ} (node : Node) (next : S → Bytes → ℕ → S) (rs : List Round) (s : S)
    → (run_all
        (λ t queues buffer size.
          (next t buffer size, node_send_to_outputs (some node) queues (some buffer) size))
        s
        rs).1
      ≡ map (passed node) rs
run_all-passed node next [] s = refl
run_all-passed node next (r ∷ rs) s =
    ap (λ t. passed node r ∷ t) (run_all-passed node next rs (next s r.buffer (bytes_of r)))

-- A process function that does so.
pub passes {ℓ} :
    {S : Type ℓ} (node : Node) (next : S → Bytes → ℕ → S) (input : ℕ) (s : S) (rounds : List Round)
    → node.input_queue ≡ some input
    → (with_input node s (
        process_loop
          (λ t queues buffer size.
            (next t buffer size, node_send_to_outputs (some node) queues (some buffer) size))
          s
          rounds)).1
      ≡ map (passed node) (accepted rounds)
passes {S = S} node next input s rounds has_input =
    let body : S → List Queue → Bytes → ℕ → S × List Queue = λ t queues buffer size.
      (next t buffer size, node_send_to_outputs (some node) queues (some buffer) size) in
    rw
      (
        with_input-some node input s (process_loop body s rounds) has_input,
        process_loop-accepted body s rounds,
      )
      (run_all-passed node next (accepted rounds) s)

-- A collector with an input queue sends each packet that it gets, in order, to its outputs, and does
-- nothing else to the queues.
pub collector_node_process-passes :
    (node : Node) (input : ℕ) (rounds : List Round)
    → node.input_queue ≡ some input
    → collector_node_process node rounds ≡ map (passed node) (accepted rounds)
unfolding collector_node_process
collector_node_process-passes node input rounds has_input =
    passes {0} node (λ t buffer size. tt) input tt rounds has_input

pub packet_counter_node_process-collector :
    (node : Node) (i : ℕ) (ctx : PacketCounterContext) (rounds : List Round)
    → ctx.log_interval ≡ pos (suc i)
    → (end : PacketCounterContext) × (packet_counter_node_process node ctx rounds
        ≡ some (end, collector_node_process node rounds))
packet_counter_node_process-collector node i ctx rounds e =
    let run = with_input node ctx (process_loop (counter_body node) ctx rounds) in
    let same : run.1 ≡ collector_node_process node rounds = elim (Option-cases node.input_queue) [
      | inl no_input ↦
          unfold collector_node_process in
          ap (λ t. t.1) (with_input-none node ctx _ no_input)
          ∙ sym (ap (λ t. t.1) (with_input-none {0} node tt _ no_input))
      | inr (input, has_input) ↦
          passes node count input ctx rounds has_input
          ∙ sym (collector_node_process-passes node input rounds has_input)
    ] in
    (
      run.0,
      packet_counter_node_process-process_loop node i ctx rounds e ∙ ap (λ t. some (run.0, t)) same,
    )
