-- ===== src/Sockets/Sends.antt =====
-- nodes/src/sender_node.c: which frames are given to `sendto`, and when the sender gives up.
use vlan_tagger.Prelude.{
  ℕ, ◌+◌, ◌≤◌, ◌≡◌, ◌≢◌, refl, ◌↔◌, inl, inr, Bool, true, false, List, [], ◌∷◌, some, leb, ltb,
  ◌==◌, if◌then◌else◌, ℤ, pos, negsuc, Bytes, map, take, arith, Bool-cases,
}
use vlan_tagger.Node.{Node}
use vlan_tagger.Strikes.{gives_up, FourFailures, gives_up_iff}
use vlan_tagger.Sockets.{PacketContext}
use vlan_tagger.Sockets.Process.{gave_up, SendRound, sender_loop, sender_node_process}

-- The rounds before the sender sees the flag, at the start of a round or behind a failed `pop`.
abbrev pub before_flag : List SendRound → List SendRound
before_flag [] = []
before_flag (r ∷ rounds) = if r.stop then [] else elim r.rcv_len [
  | pos n ↦ r ∷ before_flag rounds
  | negsuc n ↦ if r.stop_later then [] else r ∷ before_flag rounds
]

-- Of these, the rounds with a frame to send: `pop` succeeded, with fewer than 1518 bytes.
abbrev pub add_frame : ℤ → SendRound → List (ℕ × SendRound) → List (ℕ × SendRound)
add_frame (pos n) r later = if ltb n 1518 then (n, r) ∷ later else later
add_frame (negsuc n) r later = later

abbrev pub frames : List SendRound → List (ℕ × SendRound)
frames [] = []
frames (r ∷ rounds) = add_frame r.rcv_len r (frames rounds)

-- What `sendto` answers for them, `true` for a failure, and their bytes.
abbrev pub outcomes : List SendRound → List Bool
outcomes rounds = map (λ f. f.1.failed) (frames rounds)

abbrev pub contents : List SendRound → List Bytes
contents rounds = map (λ f. take f.0 f.1.buffer) (frames rounds)

-- What a run shows, after `k` failures in a row.
abbrev Run : ℕ → List SendRound → Type 0
Run k rounds =
    (gives_up k (outcomes (before_flag rounds)) ≡ true → (sender_loop k rounds).1 ≡ gave_up)
    × (gives_up k (outcomes (before_flag rounds)) ≡ false
        → ((sender_loop k rounds).0 ≡ contents (before_flag rounds))
          × ((sender_loop k rounds).1 ≢ gave_up))

-- A frame that is sent.
send_round :
    (k n : ℕ) (buffer : Bytes) (later failed : Bool) (rounds : List SendRound)
    → k ≤ 3
    → ltb n 1518 ≡ true
    → ((j : ℕ) → j ≤ 3 → Run j rounds)
    → Run k (
        record {
          stop = false;
          rcv_len = pos n;
          buffer = buffer;
          stop_later = later;
          failed = failed;
        }
        ∷ rounds)
unfolding sender_loop
send_round k n buffer later false rounds small fits rest =
    let short : leb 1518 n ≡ false = ground arith in
    let (fails, works) = rest 0 (omega arith) in
    rw (fits, sender_loop, short) (fails, λ e. (rw (works e).0, (works e).1))
send_round k n buffer later true rounds small fits rest =
    let short : leb 1518 n ≡ false = ground arith in
    elim (Bool-cases (k == 3)) [
      | inl last ↦
          let at_end : leb 3 k ≡ true = ground arith in
          rw (fits, sender_loop, short, last, at_end) (λ e. refl, λ e. absurd (cc))
      | inr more ↦
          let not_yet : leb 3 k ≡ false = ground arith in
          let (fails, works) = rest (k + 1) (ground arith) in
          rw (fits, sender_loop, short, more, not_yet) (fails, λ e. (rw (works e).0, (works e).1))
    ]

one_round :
    (k : ℕ) (stop : Bool) (rcv_len : ℤ) (buffer : Bytes) (later failed : Bool)
    (rounds : List SendRound)
    → k ≤ 3
    → ((j : ℕ) → j ≤ 3 → Run j rounds)
    → Run k (
        record {
          stop = stop;
          rcv_len = rcv_len;
          buffer = buffer;
          stop_later = later;
          failed = failed;
        }
        ∷ rounds)
unfolding sender_loop
one_round k true z buffer later failed rounds small rest = (λ e. cc, λ e. (refl, λ q. cc))
one_round k false (negsuc n) buffer true failed rounds small rest = (λ e. cc, λ e. (refl, λ q. cc))
one_round k false (negsuc n) buffer false failed rounds small rest = rest k small
one_round k false (pos n) buffer later failed rounds small rest = elim (Bool-cases (ltb n 1518)) [
  | inl fits ↦ send_round k n buffer later failed rounds small fits rest
  | inr long ↦
      let above : leb 1518 n ≡ true = ground arith in rw (long, sender_loop, above) (rest k small)
]

sender_loop-Run : (rounds : List SendRound) (k : ℕ) → k ≤ 3 → Run k rounds
sender_loop-Run [] k small = unfold sender_loop in (λ e. cc, λ e. (refl, λ q. cc))
sender_loop-Run (r ∷ rounds) k small =
    one_round k r.stop r.rcv_len r.buffer r.stop_later r.failed rounds small
      (λ j h. sender_loop-Run rounds j h)

-- With an input queue, the sender gives up just where, before it sees the flag, four calls of `sendto`
-- in a row fail, with any number of failed or skipped rounds between them; then it raises the flag, if
-- the node has one, and its socket stays open. As long as that does not happen it gives to `sendto`
-- every frame shorter than 1518 bytes that `pop` returns, whole and in order, and no other.
pub sender_node_process_sends :
    (node : Node) (q : ℕ) (ctx : PacketContext) (fds : List ℕ) (rounds : List SendRound)
    → node.input_queue ≡ some q
    → let run = sender_node_process node ctx fds rounds in
      let met = before_flag rounds in
      ((run.ended ≡ gave_up) ↔ FourFailures (outcomes met))
      × (run.ended ≡ gave_up → (run.raised ≡ node.should_exit) × (run.fds ≡ fds))
      × (run.ended ≢ gave_up → run.trace ≡ contents met)
unfolding sender_node_process
sender_node_process_sends node q ctx fds rounds has_input =
    let met = before_flag rounds in
    let (fails, works) = sender_loop-Run rounds 0 (omega arith) in
    rw (has_input, sender_node_process)
      (elim (Bool-cases (gives_up 0 (outcomes met))) [
        | inl e ↦ (
          (λ h. (gives_up_iff (outcomes met)).0 e, λ h. fails e),
          λ h. (rw h, rw h),
          λ ne. absurd (ne (fails e)),
        )
        | inr e ↦ (
          (
            λ h. absurd ((works e).1 h),
            λ h. absurd (let e' = (gives_up_iff (outcomes met)).1 h in cc),
          ),
          λ h. (rw h, rw h),
          λ ne. (works e).0,
        )
      ])
