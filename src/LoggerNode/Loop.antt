-- ===== src/LoggerNode/Loop.antt =====
-- nodes/src/logger_node.c: the whole loop of `logger_node_process`.
use native.Mathlib.Nat.{suc-mod, mod_self}
use vlan_tagger.Prelude.{
  ℕ, zero, suc, ◌+◌, ◌-◌, ◌%◌, refl, true, false, ◌⊎◌, pos, negsuc, ◌^◌, ◌≤◌, ◌<◌, ◌≡◌, ap, subst,
  map, ◌∙◌, inl, inr, List, [], ◌∷◌, ◌++◌, append_assoc, ℕ_discrete, append-nil, some, arith, ℤ,
  Bytes, length, take, All, length-take, take-append-drop, Bool-cases,
}
use vlan_tagger.Queue.{Queue}
use vlan_tagger.Node.{Node, node_send_to_outputs, Round, process_loop, with_input}
use vlan_tagger.Node.Rounds.{accepted, bytes_of, run_all, process_loop-accepted, with_input-some}
use vlan_tagger.Counter.Passes.{passed, passes}
use vlan_tagger.Frame.{over}
use vlan_tagger.Tagger.Frames.{AreBytes}
use vlan_tagger.LoggerNode.{
  LoggerContext, header, log_packet_hex, is_due, log_packet, logger_node_process,
}
use vlan_tagger.LoggerNode.Dumps.{dump_text, log_packet_hex-dump_text}

-- The packet of a round is in the buffer.
pub record IsPacket (r : Round) : Type 0 where
  pub whole : bytes_of r ≤ length r.buffer
  pub fits : bytes_of r ≤ 1522
  pub bytes : AreBytes (take (bytes_of r) r.buffer)

-- How many packets come between two that are logged: none for an interval below 2.
abbrev pub between : ℤ → ℕ
between (negsuc n) = 0
between (pos n) = n - 1

-- The texts of the packets behind the first `k`, where `left` packets come before the next one that is
-- logged, and `b` between any two: the header and the dump.
abbrev pub due_texts : Node → ℕ → ℕ → ℕ → List Round → List Bytes
due_texts node b left k [] = []
due_texts node b zero k (r ∷ rs) =
    (header node.name (suc k) (bytes_of r) ++ dump_text (take (bytes_of r) r.buffer))
    ∷ due_texts node b b (suc k) rs
due_texts node b (suc left) k (r ∷ rs) = due_texts node b left (suc k) rs

-- The packets that are left, by the count.
abbrev left_of : ℤ → ℕ → ℕ
left_of (negsuc n) k = 0
left_of (pos n) k = n - 1 - k % n

left_of-start : (interval : ℤ) → left_of interval 0 ≡ between interval
left_of-start (negsuc n) = refl
left_of-start (pos zero) = refl
left_of-start (pos (suc n)) = let none_yet : 0 % suc n ≡ 0 = grind arith in omega (arith, none_yet)

-- One packet more.
count_down :
    (m k : ℕ)
    → (k % suc m < suc m)
      × (((suc k % suc m ≡ 0) × (k % suc m ≡ m)) ⊎ (suc k % suc m ≡ suc (k % suc m)))
count_down m k =
    let small : k % suc m < suc m = grind arith in
    (
      small,
      elim (ℕ_discrete (k % suc m) m) [
        | yes last ↦ inl (suc-mod k (suc m) ∙ rw last (mod_self (suc m)), last)
        | no inner ↦
            let same : suc (k % suc m) % suc m ≡ suc (k % suc m) = grind arith in
            inr (suc-mod k (suc m) ∙ same)
      ],
    )

left_of-due :
    (interval : ℤ) (k : ℕ)
    → is_due interval (suc k) ≡ true
    → (left_of interval k ≡ 0) × (left_of interval (suc k) ≡ between interval)
left_of-due (negsuc n) k e = (refl, refl)
left_of-due (pos zero) k e = (omega arith, omega arith)
left_of-due (pos (suc n)) k e = ground (arith, count_down n k)

left_of-not_due :
    (interval : ℤ) (k : ℕ)
    → is_due interval (suc k) ≡ false
    → left_of interval k ≡ suc (left_of interval (suc k))
left_of-not_due (negsuc n) k e = absurd (cc)
left_of-not_due (pos zero) k e = absurd (ground arith)
left_of-not_due (pos (suc n)) k e = ground (arith, count_down n k)

log_packet_hex-round :
    (node : Node) (r : Round) (k : ℕ)
    → length node.name ≤ 63
    → IsPacket r
    → log_packet_hex node.name r.buffer (bytes_of r) k
      ≡ header node.name k (bytes_of r) ++ dump_text (take (bytes_of r) r.buffer)
log_packet_hex-round node r k short packet =
    let p = take (bytes_of r) r.buffer in
    let n_eq : length p ≡ bytes_of r =
      omega (arith, length-take (bytes_of r) r.buffer, packet.whole) in
    let here : over p r.buffer ≡ r.buffer = rw n_eq (take-append-drop (bytes_of r) r.buffer) in
    let whole =
      (log_packet_hex-dump_text node.name p r.buffer k short (omega (arith, packet.fits))
        packet.bytes).0 in
    subst
      (λ b.
        log_packet_hex node.name b (bytes_of r) k ≡ header node.name k (bytes_of r) ++ dump_text p)
      here
      (subst
        (λ n. log_packet_hex node.name (over p r.buffer) n k ≡ header node.name k n ++ dump_text p)
        n_eq whole)

-- The body's effect on the context and the log, for each packet.
run_all-due_texts :
    (node : Node) (interval : ℤ) (rs : List Round) (k : ℕ) (logged : List Bytes)
    → length node.name ≤ 63
    → All IsPacket rs
    → k + length rs < 2 ^ 64
    → (run_all
        (λ s queues buffer packet_size. (
          log_packet node s buffer packet_size,
          node_send_to_outputs (some node) queues (some buffer) packet_size,
        ))
        (record { log_interval = interval; packet_count = k }, logged)
        rs).0
      ≡ (
        record { log_interval = interval; packet_count = k + length rs },
        logged ++ due_texts node (between interval) (left_of interval k) k rs,
      )
unfolding log_packet
run_all-due_texts node interval [] k logged short h room =
    let none_more : k + 0 ≡ k = omega arith in rw (none_more, append-nil logged)
run_all-due_texts node interval (r ∷ rs) k logged short h room =
    let counted : (k + 1) % 2 ^ 64 ≡ suc k = omega arith in
    let total : suc k + length rs ≡ k + suc (length rs) = omega arith in
    let text = header node.name (suc k) (bytes_of r) ++ dump_text (take (bytes_of r) r.buffer) in
    elim (Bool-cases (is_due interval (suc k))) [
      | inl due ↦
          rw (counted, due, log_packet_hex-round node r (suc k) short h.0)
            (run_all-due_texts node interval rs (suc k) (logged ++ text ∷ []) short h.1
                (omega arith)
              ∙ rw (
                total,
                (left_of-due interval k due).0,
                (left_of-due interval k due).1,
                append_assoc logged (text ∷ [])
                    (due_texts node (between interval) (between interval) (suc k) rs),
              ))
      | inr not_due ↦
          rw (counted, not_due)
            (run_all-due_texts node interval rs (suc k) logged short h.1 (omega arith)
              ∙ rw (total, left_of-not_due interval k not_due))
    ]

-- With an input queue, a name of at most 63 characters, and fewer than 2^64 packets of at most 1522
-- bytes, the node counts its packets, logs the header and the whole dump of every n-th for an interval
-- n above 1, with n - 1 packets before the first one and between any two, and otherwise of every one, in
-- order, and sends every packet on to its outputs.
pub logger_node_process-due_texts :
    (node : Node) (input : ℕ) (interval : ℤ) (rounds : List Round)
    → node.input_queue ≡ some input
    → length node.name ≤ 63
    → All IsPacket (accepted rounds)
    → length (accepted rounds) < 2 ^ 64
    → let run =
        logger_node_process node (record { log_interval = interval; packet_count = 0 }) rounds in
      (run.0.0.packet_count ≡ length (accepted rounds))
      × (run.0.1 ≡ due_texts node (between interval) (between interval) 0 (accepted rounds))
      × (run.1 ≡ map (passed node) (accepted rounds))
unfolding logger_node_process
logger_node_process-due_texts node input interval rounds has_input short h room =
    let start : LoggerContext × List Bytes =
      (record { log_interval = interval; packet_count = 0 }, []) in
    let body : LoggerContext × List Bytes
        → List Queue
        → Bytes
        → ℕ
        → (LoggerContext × List Bytes) × List Queue =
      λ s queues buffer packet_size. (
        log_packet node s buffer packet_size,
        node_send_to_outputs (some node) queues (some buffer) packet_size,
      ) in
    let all = run_all-due_texts node interval (accepted rounds) 0 [] short h (omega arith) in
    let same : (with_input node start (process_loop body start rounds)).0
        ≡ (run_all body start (accepted rounds)).0 =
      rw (
        with_input-some node input start (process_loop body start rounds) has_input,
        process_loop-accepted body start rounds,
      ) in
    (
      ap (λ s. s.0.packet_count) (same ∙ all) ∙ omega arith,
      ap (λ s. s.1) (same ∙ all)
          ∙ ap (λ left. due_texts node (between interval) left 0 (accepted rounds))
              (left_of-start interval),
      passes node (log_packet node) input start rounds has_input,
    )
