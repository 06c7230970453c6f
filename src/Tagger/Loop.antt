-- ===== src/Tagger/Loop.antt =====
-- nodes/src/tagger_node.c: the whole loop of `tagger_node_process`.
use vlan_tagger.Prelude.{
  subst, ℕ, ◌+◌, ◌≤◌, ◌≡◌, refl, ap, ◌∙◌, ◌⊎◌, inl, inr, List, [], ◌∷◌, Option, some, none, arith,
  Bytes, length, take, All, length-take, take-append-drop,
}
use vlan_tagger.Queue.{Queue}
use vlan_tagger.Node.{Node, node_send_to_outputs, Round, process_loop}
use vlan_tagger.Node.Rounds.{accepted, bytes_of, run_all, process_loop-accepted, with_input-some}
use vlan_tagger.Frame.{ethernet_frame_length, over}
use vlan_tagger.Tagger.Frames.{be16, AreBytes}
use vlan_tagger.Tagger.Untag.{untagged, edited, length-edited, untagged-edited, tag_packet_cases}
use vlan_tagger.Tagger.{TaggerRule, tag_packet, sent, tag_round, tagger_node_process}

-- The frame of a round.
abbrev pub frame_of : Round → Bytes
frame_of r = take (bytes_of r) r.buffer

-- It is there, and not longer than a frame without a VLAN header may be.
pub record IsFrame (r : Round) : Type 0 where
  pub whole : bytes_of r ≤ length r.buffer
  pub fits : bytes_of r ≤ 1518
  pub bytes : AreBytes (frame_of r)

-- What the tagger does with a round's queues: nothing, or it sends the frame with an 802.1Q header.
abbrev pub Tags : Node → Round → List Queue → Type 0
Tags node r queues =
    (queues ≡ r.queues)
    ⊎ ((out : Bytes) × (queues
          ≡ node_send_to_outputs (some node) r.queues (some out) (bytes_of r + 4))
        × (be16 out 12 ≡ 0x8100)
        × (untagged (take (bytes_of r + 4) out) ≡ frame_of r))

abbrev pub AllTags : Node → List Round → List (List Queue) → Type 0
AllTags node [] [] = Unit
AllTags node (r ∷ rs) (queues ∷ trace) = Tags node r queues × AllTags node rs trace
AllTags node [] (queues ∷ trace) = ⊥
AllTags node (r ∷ rs) [] = ⊥

-- The output buffer, still in one piece.
abbrev pub Intact : Option Bytes → Type 0
Intact none = ⊥
Intact (some output) = length output ≡ ethernet_frame_length

length-frame_of : (r : Round) → IsFrame r → length (frame_of r) ≡ bytes_of r
length-frame_of r f = omega (arith, length-take (bytes_of r) r.buffer, f.whole)

over-frame_of : (r : Round) → IsFrame r → over (frame_of r) r.buffer ≡ r.buffer
over-frame_of r f = rw (length-frame_of r f) (take-append-drop (bytes_of r) r.buffer)

tag_round-Tags :
    (node : Node) (rules : List TaggerRule) (output : Bytes) (r : Round)
    → length output ≡ ethernet_frame_length
    → IsFrame r
    → let after = tag_round node rules (some output) r.queues r.buffer (bytes_of r) in
      Intact after.0 × Tags node r after.1
unfolding tag_round
tag_round-Tags node rules output r size f =
    let p : Bytes = frame_of r in
    let n_eq : length p ≡ bytes_of r = length-frame_of r f in
    let here : tag_packet rules r.buffer output (bytes_of r)
        ≡ tag_packet rules (over p r.buffer) output (length p) =
      rw (over-frame_of r f, length-frame_of r f) in
    elim (tag_packet_cases rules p r.buffer output f.bytes size (omega (arith, n_eq, f.fits))) [
      | inl e ↦ rw (here ∙ e) (size, inl refl)
      | inr (long, ip, tci, e) ↦
          let out : Bytes = edited p output tci in
          let back = untagged-edited p output tci (omega arith) in
          let all : tag_packet rules r.buffer output (bytes_of r) ≡ sent (bytes_of r + 4) out =
            here ∙ e ∙ ap (λ t. sent (t + 4) out) n_eq in
          rw all (
            length-edited p output tci (omega arith) (omega (arith, n_eq, f.fits)) ∙ size,
            inr (out, refl, back.0, subst (λ t. untagged (take (t + 4) out) ≡ p) n_eq back.1),
          )
    ]

run_all-AllTags :
    (node : Node) (rules : List TaggerRule) (rs : List Round) (output : Option Bytes)
    → Intact output
    → All IsFrame rs
    → let run = run_all (tag_round node rules) output rs in Intact run.0 × AllTags node rs run.1
run_all-AllTags node rules [] output size h = (size, tt)
run_all-AllTags node rules (r ∷ rs) none size h = absurd size
run_all-AllTags node rules (r ∷ rs) (some output) size h =
    let now = tag_round-Tags node rules output r size h.0 in
    let after = tag_round node rules (some output) r.queues r.buffer (bytes_of r) in
    let later = run_all-AllTags node rules rs after.0 now.0 h.1 in (later.0, (now.1, later.1))

-- A tagger with an input queue, some rules and an output buffer of 1522 bytes, which gets only frames of
-- at most 1518 bytes, never writes outside that buffer; and of each of its packets, in order, it either
-- sends nothing, or sends on to all its outputs the packet with a VLAN header and four bytes longer.
pub tagger_node_process-AllTags :
    (node : Node) (input : ℕ) (rule : TaggerRule) (rules : List TaggerRule) (output : Bytes)
    (rounds : List Round)
    → node.input_queue ≡ some input
    → length output ≡ ethernet_frame_length
    → All IsFrame (accepted rounds)
    → let run = tagger_node_process node (rule ∷ rules) output rounds in
      Intact run.0 × AllTags node (accepted rounds) run.1
unfolding tagger_node_process
tagger_node_process-AllTags node input rule rules output rounds has_input size h =
    let body : Option Bytes → List Queue → Bytes → ℕ → Option Bytes × List Queue =
      tag_round node (rule ∷ rules) in
    rw
      (
        with_input-some node input (some output) (process_loop body (some output) rounds) has_input,
        process_loop-accepted body (some output) rounds,
      )
      (run_all-AllTags node (rule ∷ rules) (accepted rounds) (some output) size h)
