-- ===== src/Sockets/Hears.antt =====
-- nodes/src/sniffer_node.c: which frames the sniffer sends on, and when it gives up.
use vlan_tagger.Prelude.{
  ◌≢◌, ℕ, ◌+◌, ◌%◌, ◌^◌, ◌≤◌, ◌≡◌, refl, ◌↔◌, inl, inr, Bool, true, false, List, [], ◌∷◌, some, leb,
  if◌then◌else◌, ℤ, pos, negsuc, Bytes, map, arith, Bool-cases,
}
use vlan_tagger.Queue.{Queue}
use vlan_tagger.Node.{Node, Round, node_send_to_outputs}
use vlan_tagger.Strikes.{gives_up, FourFailures, gives_up_iff}
use vlan_tagger.Sockets.{PacketContext}
use vlan_tagger.Sockets.Process.{gave_up, sniffer_loop, sniffer_node_process}

-- The rounds before the flag is seen.
abbrev pub before_stop : List Round → List Round
before_stop [] = []
before_stop (r ∷ rounds) = if r.stop then [] else r ∷ before_stop rounds

-- `recvfrom` failed.
abbrev pub is_error : ℤ → Bool
is_error (pos n) = false
is_error (negsuc n) = true

abbrev pub failures : List Round → List Bool
failures rounds = map (λ r. is_error r.packet_size) rounds

-- The frames that came, each as it goes to the outputs.
abbrev pub sent_on : Node → ℤ → Round → List (List Queue) → List (List Queue)
sent_on node (pos n) r later =
    node_send_to_outputs (some node) r.queues (some r.buffer) (n % 2 ^ 16) ∷ later
sent_on node (negsuc n) r later = later

abbrev pub all_sent : Node → List Round → List (List Queue)
all_sent node [] = []
all_sent node (r ∷ rounds) = sent_on node r.packet_size r (all_sent node rounds)

-- What a run shows, after `k` failures in a row.
abbrev Run : Node → ℕ → List Round → Type 0
Run node k rounds =
    (gives_up k (failures (before_stop rounds)) ≡ true → (sniffer_loop node k rounds).1 ≡ gave_up)
    × (gives_up k (failures (before_stop rounds)) ≡ false
        → ((sniffer_loop node k rounds).0 ≡ all_sent node (before_stop rounds))
          × ((sniffer_loop node k rounds).1 ≢ gave_up))

one_round :
    (node : Node) (k : ℕ) (stop : Bool) (packet_size : ℤ) (buffer : Bytes) (queues : List Queue)
    (rounds : List Round)
    → k ≤ 3
    → ((j : ℕ) → j ≤ 3 → Run node j rounds)
    → Run node k (
        record { stop = stop; packet_size = packet_size; buffer = buffer; queues = queues }
        ∷ rounds)
unfolding sniffer_loop
one_round node k true z buffer queues rounds small rest = (λ e. cc, λ e. (refl, λ q. cc))
one_round node k false (pos n) buffer queues rounds small rest =
    let later = rest 0 (omega arith) in (later.0, λ e. (rw (later.1 e).0, (later.1 e).1))
one_round node k false (negsuc n) buffer queues rounds small rest = elim (Bool-cases (leb 3 k)) [
  | inl last ↦ rw (last, sniffer_loop) (λ e. refl, λ e. absurd (cc))
  | inr more ↦
      let room : k + 1 ≤ 3 = ground arith in
      let counted : (k + 1) % 2 ^ 8 ≡ k + 1 = omega arith in
      rw (more, sniffer_loop, counted) (rest (k + 1) room)
]

sniffer_loop-Run : (node : Node) (rounds : List Round) (k : ℕ) → k ≤ 3 → Run node k rounds
sniffer_loop-Run node [] k small = unfold sniffer_loop in (λ e. cc, λ e. (refl, λ q. cc))
sniffer_loop-Run node (r ∷ rounds) k small =
    one_round node k r.stop r.packet_size r.buffer r.queues rounds small
      (λ j h. sniffer_loop-Run node rounds j h)

-- The sniffer gives up just where, before it sees the flag, four calls of `recvfrom` in a row fail;
-- then it raises the flag, if the node has one. As long as that does not happen it sends every frame
-- that comes to its outputs, in order.
pub sniffer_node_process_hears :
    (node : Node) (ctx : PacketContext) (fds : List ℕ) (rounds : List Round)
    → let run = sniffer_node_process node ctx fds rounds in
      let heard = before_stop rounds in
      ((run.ended ≡ gave_up) ↔ FourFailures (failures heard))
      × (run.ended ≡ gave_up → run.raised ≡ node.should_exit)
      × (run.ended ≢ gave_up → run.trace ≡ all_sent node heard)
unfolding sniffer_node_process
sniffer_node_process_hears node ctx fds rounds =
    let heard = before_stop rounds in
    let (fails, works) = sniffer_loop-Run node rounds 0 (omega arith) in
    elim (Bool-cases (gives_up 0 (failures heard))) [
      | inl e ↦ (
        (λ h. (gives_up_iff (failures heard)).0 e, λ h. fails e),
        λ h. rw h,
        λ ne. absurd (ne (fails e)),
      )
      | inr e ↦ (
        (
          λ h. absurd ((works e).1 h),
          λ h. absurd (let e' = (gives_up_iff (failures heard)).1 h in cc),
        ),
        λ h. rw h,
        λ ne. (works e).0,
      )
    ]
