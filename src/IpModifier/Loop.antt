-- ===== src/IpModifier/Loop.antt =====
-- nodes/src/ip_modifier_node.c: the whole loop of `ip_modifier_node_process`.
use vlan_tagger.Prelude.{
  ℕ, ◌≤◌, ◌<◌, ◌≡◌, ◌≢◌, refl, ◌⊎◌, inl, inr, Bool, true, false, List, [], ◌∷◌, some, arith, ltb,
  ltb→lt, ◌==◌, Bytes, length, All, Bool-cases,
}
use vlan_tagger.Queue.{Queue}
use vlan_tagger.Node.{Node, node_send_to_outputs, Round, process_loop}
use vlan_tagger.Node.Rounds.{
  accepted, bytes_of, run_all, process_loop-accepted, with_input-some, AllRounds,
}
use vlan_tagger.Frame.{ethernet_frame_length}
use vlan_tagger.Tagger.Frames.{be16, AreBytes}
use vlan_tagger.IpModifier.{modified, modify_round, ip_modifier_node_process}
use vlan_tagger.IpModifier.Types.{is_ip_packet-be16}
use vlan_tagger.IpModifier.Redirects.{Redirected, modify_destination_ip-Redirected}

-- The node's buffer.
pub record IsBuffer (r : Round) : Type 0 where
  pub size : length r.buffer ≡ ethernet_frame_length
  pub bytes : AreBytes r.buffer

-- What the node does with a round's queues: nothing for a short frame, or it sends the frame, to the new
-- address if it is an IPv4 packet.
abbrev pub Passes : Node → ℕ → Round → List Queue → Type 0
Passes node new_ip r queues =
    ((bytes_of r < 46) × (queues ≡ r.queues))
    ⊎ ((46 ≤ bytes_of r)
        × ((b' : Bytes) × (queues
              ≡ node_send_to_outputs (some node) r.queues (some b') (bytes_of r))
            × (((be16 r.buffer 12 ≡ 0x0800) × Redirected r.buffer new_ip b')
                ⊎ ((be16 r.buffer 12 ≢ 0x0800) × (b' ≡ r.buffer)))))

modified_cases :
    (buffer : Bytes) (new_ip : ℕ)
    → 74 ≤ length buffer
    → AreBytes buffer
    → (b' : Bytes) × (modified buffer new_ip ≡ some b')
      × (((be16 buffer 12 ≡ 0x0800) × Redirected buffer new_ip b')
          ⊎ ((be16 buffer 12 ≢ 0x0800) × (b' ≡ buffer)))
modified_cases buffer new_ip room h =
    let test = is_ip_packet-be16 buffer h in
    elim (Bool-cases (be16 buffer 12 == 0x0800)) [
      | inl ip ↦
          let (b', e, same) = modify_destination_ip-Redirected buffer new_ip room h in
          (b', rw (test, ip) e, inl (ground arith, same))
      | inr other ↦ (buffer, rw (test, other), inr (ground arith, refl))
    ]

modify_round-Passes :
    (node : Node) (new_ip : ℕ) (r : Round)
    → IsBuffer r
    → let after = modify_round node new_ip true r.queues r.buffer (bytes_of r) in
      (after.0 ≡ true) × Passes node new_ip r after.1
unfolding modify_round
modify_round-Passes node new_ip r f = elim (Bool-cases (ltb (bytes_of r) 46)) [
  | inl short ↦ rw short (refl, inl (ltb→lt (bytes_of r) 46 short, refl))
  | inr long ↦
      let (b', e, same) = modified_cases r.buffer new_ip (omega (arith, f.size)) f.bytes in
      let enough : 46 ≤ bytes_of r = ground arith in
      rw (long, e) (refl, inr (enough, (b', refl, same)))
]

run_all-Passes :
    (node : Node) (new_ip : ℕ) (rs : List Round) (inside : Bool)
    → inside ≡ true
    → All IsBuffer rs
    → let run = run_all (modify_round node new_ip) inside rs in
      (run.0 ≡ true) × AllRounds (Passes node new_ip) rs run.1
run_all-Passes node new_ip [] inside e h = (e, tt)
run_all-Passes node new_ip (r ∷ rs) false e h = absurd (cc)
run_all-Passes node new_ip (r ∷ rs) true e h =
    let now = modify_round-Passes node new_ip r h.0 in
    let after = modify_round node new_ip true r.queues r.buffer (bytes_of r) in
    let later = run_all-Passes node new_ip rs after.0 now.0 h.1 in (later.0, (now.1, later.1))

-- A node with an input queue and a buffer of 1522 bytes never reads or writes outside that buffer. Of
-- each packet that it gets, in order, it sends on to its outputs nothing if the packet is shorter than
-- 46 bytes, the packet as it is if its type field is not 0x0800, and otherwise the packet with the new
-- destination address, in which no byte but the address and the checksum has changed.
pub ip_modifier_node_process-Passes :
    (node : Node) (input new_ip : ℕ) (rounds : List Round)
    → node.input_queue ≡ some input
    → All IsBuffer (accepted rounds)
    → let run = ip_modifier_node_process node new_ip rounds in
      (run.0 ≡ true) × AllRounds (Passes node new_ip) (accepted rounds) run.1
unfolding ip_modifier_node_process
ip_modifier_node_process-Passes node input new_ip rounds has_input h =
    let body : Bool → List Queue → Bytes → ℕ → Bool × List Queue = modify_round node new_ip in
    rw
      (
        with_input-some node input true (process_loop body true rounds) has_input,
        process_loop-accepted body true rounds,
      )
      (run_all-Passes node new_ip (accepted rounds) true refl h)
