-- ===== src/Route.antt =====
-- pipeline_patterns/patterns.c: the way of a frame from a tagger through the queue behind it, the packet
-- counter and the next queue to the sender.
mod Tests
use vlan_tagger.Prelude.{
  ℕ, zero, suc, ◌+◌, ◌≤◌, ◌<◌, ◌≡◌, refl, ap, ◌∙◌, sym, subst, inl, inr, true, false, List, [], ◌∷◌,
  ◌++◌, some, none, ltb, leb, ◌==◌, if◌then◌else◌, arith, pos, Bytes, length, take, drop, get_elem?,
  map, length-take, take-append, length-append, Bool-cases,
}
use vlan_tagger.Config.{TagRule}
use vlan_tagger.Queue.{Queue, Wakeup, Popped, returned, pop, push, clear_front, max_pkg_size}
use vlan_tagger.Queue.Fifo
use vlan_tagger.Queue.Holds.{Holds}
use vlan_tagger.Queue.Refine.{push-Holds, pop-Holds}
use vlan_tagger.Node.{Node, Round, update, node_send_to_outputs, send_all}
use vlan_tagger.Node.Rounds.{accepted}
use vlan_tagger.Counter.{PacketCounterContext, packet_counter_node_process}
use vlan_tagger.Counter.Passes.{
  passed, collector_node_process-passes, packet_counter_node_process-collector,
}
use vlan_tagger.Frame.{over, ethernet_frame_length}
use vlan_tagger.Tagger.{to_host, tag_packet, tag_round, settle}
use vlan_tagger.Tagger.Process.{IsIpv4, Gives, tag_packet-sent}
use vlan_tagger.Tagger.Frames.{tagged}
use vlan_tagger.Tagger.Untag.{length-tagged}
use vlan_tagger.Config.Valid.{AreApart}
use vlan_tagger.Sockets.Process.{SendRound, sender_loop}

-- A node with one output, whose queue is empty.
pub record IsIdle (node : Node) (o : ℕ) (queues : List Queue) : Type 0 where
  pub one_output : node.output_queues ≡ o ∷ []
  pub queue : Queue
  pub at_o : get_elem? queues o ≡ some queue
  pub empty : Holds queue []

-- The next node's `pop` on the queue at the place `o` returns `size` bytes at once, and leaves `b` in the
-- node's buffer.
pub record Hop (queues : List Queue) (o size : ℕ) (buff b : Bytes) : Type 0 where
  pub queue : Queue
  pub rest : Queue
  pub at_o : get_elem? queues o ≡ some queue
  pub popped : pop queue buff [] ≡ returned (pos size) b rest

get_elem?-update :
    (queues : List Queue) (o : ℕ) (q : Queue) (f : Queue → Queue)
    → get_elem? queues o ≡ some q
    → get_elem? (update queues o f) o ≡ some (f q)
get_elem?-update [] o q f e = absurd (cc)
get_elem?-update (x ∷ queues) zero q f e = cc
get_elem?-update (x ∷ queues) (suc o) q f e = get_elem?-update queues o q f e

-- One hop through an empty queue, of a packet that fits into it.
module _ (node : Node) (o : ℕ) (queues : List Queue) (idle : IsIdle node o queues) (buffer : Bytes)
    (size : ℕ) (buff : Bytes) (readable : size ≤ length buffer) (some_bytes : 0 < size)
    (fits : size ≤ max_pkg_size) (room : max_pkg_size ≤ length buff) where
  filled : Queue
  filled = (push idle.queue buffer size).1

  filled-Holds : Holds filled (take size buffer ∷ [])
  unfolding filled Fifo.push
  filled-Holds =
      let pushed = (push-Holds idle.queue [] buffer size idle.empty readable).1 in
      let not_long : ltb max_pkg_size size ≡ false = ground arith in
      let not_none : (size == 0) ≡ false = ground arith in rw (not_long, not_none) at pushed

  passes_on :
      Hop
        (node_send_to_outputs (some node) queues (some buffer) size)
        o
        (length (take size buffer))
        buff
        (over (take size buffer) buff)
  unfolding filled node_send_to_outputs
  passes_on = record {
    queue = filled;
    rest = clear_front filled;
    at_o =
        rw idle.one_output
          (get_elem?-update queues o idle.queue (λ q. (push q buffer size).1) idle.at_o);
    popped =
        (pop-Holds filled (take size buffer) [] buff [] filled-Holds
          (omega (arith, length-take size buffer))).0;
  }

-- The same for a frame in the first bytes of a buffer.
passes_frame :
    (node : Node) (o : ℕ) (queues : List Queue) (t s buff : Bytes) (n : ℕ)
    → IsIdle node o queues
    → length t ≡ n
    → 0 < n
    → n ≤ max_pkg_size
    → max_pkg_size ≤ length buff
    → Hop (node_send_to_outputs (some node) queues (some (t ++ s)) n) o n buff (over t buff)
passes_frame node o queues t s buff n idle size some_bytes fits room =
    subst
      (λ k. Hop (node_send_to_outputs (some node) queues (some (t ++ s)) k) o k buff (over t buff))
      size
      (subst
        (λ f.
          Hop (node_send_to_outputs (some node) queues (some (t ++ s)) (length t)) o (length f) buff
            (over f buff))
        (take-append t s)
        (passes_on node o queues idle (t ++ s) (length t) buff (omega (arith, length-append t s))
          (omega arith) (omega arith) room))

-- The sender with one frame, whose `sendto` succeeds.
abbrev pub sent_frames : ℕ → Bytes → List Bytes
sent_frames n buffer =
    (sender_loop 0 (
      record { stop = false; rcv_len = pos n; buffer = buffer; stop_later = false; failed = false }
      ∷ [])).0

sent_frame :
    (t s : Bytes) (n : ℕ)
    → length t ≡ n
    → sent_frames n (t ++ s) ≡ (if ltb n 1518 then t ∷ [] else [])
unfolding sender_loop
sent_frame t s n size = elim (Bool-cases (ltb n 1518)) [
  | inl short ↦
      let sends : leb 1518 n ≡ false = ground arith in
      let whole : take n (t ++ s) ≡ t = subst (λ k. take k (t ++ s) ≡ t) size (take-append t s) in
      rw (short, sent_frames, sends, whole)
  | inr long ↦ let skips : leb 1518 n ≡ true = ground arith in rw (long, sent_frames, skips)
]

-- The packet counter with one packet.
abbrev pub one_round : List Queue → Bytes → ℕ → List Round
one_round queues buffer n =
    record { stop = false; packet_size = pos n; buffer = buffer; queues = queues } ∷ []

accepted-one_round :
    (queues : List Queue) (buffer : Bytes) (n : ℕ)
    → 0 < n
    → accepted (one_round queues buffer n) ≡ one_round queues buffer n
unfolding accepted
accepted-one_round queues buffer zero h = absurd (omega arith)
accepted-one_round queues buffer (suc n) h = refl

counter_passes :
    (counter : Node) (input m : ℕ) (ctx : PacketCounterContext) (queues : List Queue)
    (buffer : Bytes) (n : ℕ)
    → counter.input_queue ≡ some input
    → ctx.log_interval ≡ pos (suc m)
    → 0 < n
    → (end : PacketCounterContext) × (packet_counter_node_process counter ctx
          (one_round queues buffer n)
        ≡ some (end, node_send_to_outputs (some counter) queues (some buffer) n ∷ []))
counter_passes counter input m ctx queues buffer n has_input interval some_bytes =
    let rounds = one_round queues buffer n in
    let (end, e) = packet_counter_node_process-collector counter m ctx rounds interval in
    let sent =
      collector_node_process-passes counter input rounds has_input
      ∙ ap (map (passed counter)) (accepted-one_round queues buffer n some_bytes) in
    (end, e ∙ ap (λ trace. some (end, trace)) sent)

-- With buffers of 1522 bytes, an IPv4 frame of 34 to 1518 bytes, whose destination is not 0.0.0.0 and
-- lies in the range of a rule for a VLAN from 1 to 4095, the rules apart, goes from the tagger through
-- the packet counter to the sender, where the tagger and the counter have one output each, the queues
-- behind them are empty, and the counter has an input queue and a positive interval: at each of the two
-- queues `pop` returns at once the frame with the 802.1Q header, four bytes longer, and between them the
-- packet counter, without a division by zero, sends on what it popped. The sender gives exactly these
-- bytes to a `sendto` that succeeds if they are fewer than 1518, and so if the frame had at most 1513
-- bytes; a longer frame is lost there.
pub tag_round_sent :
    (tagger counter : Node) (o1 o2 input m : ℕ) (ctx : PacketCounterContext)
    (queues1 queues2 : List Queue) (rs : List TagRule) (i vid : ℕ)
    (p stale output counter_buffer sender_buffer : Bytes)
    → IsIdle tagger o1 queues1
    → IsIdle counter o2 queues2
    → counter.input_queue ≡ some input
    → ctx.log_interval ≡ pos (suc m)
    → AreApart rs
    → IsIpv4 p
    → Gives rs i p vid
    → length output ≡ ethernet_frame_length
    → length counter_buffer ≡ ethernet_frame_length
    → length sender_buffer ≡ ethernet_frame_length
    → length p ≤ 1518
    → let n = length p + 4 in
      let after =
        tag_round tagger (map to_host rs) (some output) queues1 (over p stale) (length p) in
      let counted = over (tagged p vid) counter_buffer in
      let popped = over (tagged p vid) sender_buffer in
      Hop after.1 o1 n counter_buffer counted
      × ((end : PacketCounterContext) × (queues3 : List Queue) × (packet_counter_node_process
              counter ctx
              (one_round queues2 counted n)
            ≡ some (end, queues3 ∷ []))
          × Hop queues3 o2 n sender_buffer popped)
      × (sent_frames n popped ≡ (if ltb n 1518 then tagged p vid ∷ [] else []))
unfolding tag_round
tag_round_sent tagger counter o1 o2 input m ctx queues1 queues2 rs i vid p stale output
      counter_buffer sender_buffer idle1 idle2 has_input interval apart v g size size1 size2 fits =
    let n = length p + 4 in
    let t = tagged p vid in
    let counted = over t counter_buffer in
    let n_eq : length t ≡ n = sym (length-tagged p vid (omega (arith, v.long))) in
    let sends = tag_packet-sent rs i vid p stale output apart v g size fits in
    let (end, passed_on) =
      counter_passes counter input m ctx queues2 counted n has_input interval (omega arith) in
    (
      rw (tag_round, sends)
          (passes_frame tagger o1 queues1 t (drop n output) counter_buffer n idle1 n_eq
            (omega arith) (omega arith) (omega arith)),
      (
        end,
        _,
        passed_on,
        passes_frame counter o2 queues2 t (drop (length t) counter_buffer) sender_buffer n idle2
            n_eq (omega arith) (omega arith) (omega arith),
      ),
      sent_frame t (drop (length t) sender_buffer) n n_eq,
    )
