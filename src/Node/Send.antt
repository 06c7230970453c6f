-- ===== src/Node/Send.antt =====
-- pipeline/node.c: what `node_send_to_outputs` leaves in the queues.
use vlan_tagger.Prelude.{
  ℕ, zero, suc, ◌≤◌, ◌≡◌, ◌≢◌, refl, sym, subst, ◌∙◌, inl, inr, List, [], ◌∷◌, some, All, arith,
  Bytes, length, get_elem?, Bool-cases, ◌==◌, if◌then◌else◌,
}
use vlan_tagger.Queue.Fifo
use vlan_tagger.Queue.Fifo.{Fifo}
use vlan_tagger.Queue.Holds.{Holds}
use vlan_tagger.Queue.Refine.{push-Holds}
use vlan_tagger.Queue.{Queue, push}
use vlan_tagger.Node.{Node, update, send_all, node_send_to_outputs}

-- No queue stands twice among the outputs.
abbrev pub Distinct : List ℕ → Type 0
Distinct [] = Unit
Distinct (o ∷ os) = All (λ r. o ≢ r) os × Distinct os

-- What the packets `ps` of the queue at place `i` become: one more packet if the place is among the
-- outputs.
abbrev pub delivered : List ℕ → ℕ → Fifo → Bytes → ℕ → Fifo
delivered [] i ps buffer size = ps
delivered (o ∷ os) i ps buffer size =
    if o == i then (Fifo.push ps buffer size).1 else delivered os i ps buffer size

-- Every queue at the place `i` holds the packets `ps`.
abbrev pub HoldsAt : List Queue → ℕ → Fifo → Type 0
HoldsAt queues i ps = (q : Queue) → get_elem? queues i ≡ some q → Holds q ps

get_elem?-update_ne {ℓ} :
    {A : Type ℓ} (xs : List A) (f : A → A) (i k : ℕ)
    → i ≢ k
    → get_elem? (update xs i f) k ≡ get_elem? xs k
get_elem?-update_ne [] f i k ne = refl
get_elem?-update_ne (x ∷ xs) f zero zero ne = absurd (ne refl)
get_elem?-update_ne (x ∷ xs) f zero (suc k) ne = refl
get_elem?-update_ne (x ∷ xs) f (suc i) zero ne = refl
get_elem?-update_ne (x ∷ xs) f (suc i) (suc k) ne =
    get_elem?-update_ne xs f i k (λ e. ne (omega arith))

get_elem?-update_self {ℓ} :
    {A : Type ℓ} (xs : List A) (f : A → A) (i : ℕ) (y : A)
    → get_elem? (update xs i f) i ≡ some y
    → (x : A) × (get_elem? xs i ≡ some x) × (f x ≡ y)
get_elem?-update_self [] f i y e = absurd (cc)
get_elem?-update_self (x ∷ xs) f zero y e = (x, refl, cc)
get_elem?-update_self (x ∷ xs) f (suc i) y e = get_elem?-update_self xs f i y e

-- A queue that is not among the outputs stays as it is.
send_all-other :
    (os : List ℕ) (queues : List Queue) (buffer : Bytes) (size i : ℕ)
    → All (λ o. i ≢ o) os
    → get_elem? (send_all os queues buffer size) i ≡ get_elem? queues i
send_all-other [] queues buffer size i h = refl
send_all-other (o ∷ os) queues buffer size i h =
    send_all-other os (update queues o (λ q. (push q buffer size).1)) buffer size i h.1
    ∙ get_elem?-update_ne queues (λ q. (push q buffer size).1) o i (λ e. h.0 (omega arith))

-- One push into the queue at a place.
push_at :
    (queues : List Queue) (buffer : Bytes) (size i : ℕ) (ps : Fifo)
    → HoldsAt queues i ps
    → size ≤ length buffer
    → HoldsAt (update queues i (λ q. (push q buffer size).1)) i (Fifo.push ps buffer size).1
push_at queues buffer size i ps h readable q e =
    let (r, at_i, pushed) = get_elem?-update_self queues (λ q. (push q buffer size).1) i q e in
    subst (λ s. Holds s (Fifo.push ps buffer size).1) pushed
      (push-Holds r ps buffer size (h r at_i) readable).1

send_all-HoldsAt :
    (os : List ℕ) (queues : List Queue) (buffer : Bytes) (size i : ℕ) (ps : Fifo)
    → HoldsAt queues i ps
    → Distinct os
    → size ≤ length buffer
    → HoldsAt (send_all os queues buffer size) i (delivered os i ps buffer size)
send_all-HoldsAt [] queues buffer size i ps h apart readable q e = h q e
send_all-HoldsAt (o ∷ os) queues buffer size i ps h apart readable q e =
    let queues' : List Queue = update queues o (λ q. (push q buffer size).1) in
    elim (Bool-cases (o == i)) [
      | inl here ↦
          let same : o ≡ i = ground arith in
          let rest : get_elem? (send_all os queues' buffer size) i ≡ get_elem? queues' i =
            send_all-other os queues' buffer size i
              (subst (λ t. All (λ r. t ≢ r) os) same apart.0) in
          rw here (
            subst
              (λ t.
                HoldsAt (update queues t (λ q. (push q buffer size).1)) i
                  (Fifo.push ps buffer size).1)
              (sym same) (push_at queues buffer size i ps h readable) q (sym rest ∙ e))
      | inr other ↦
          let ne : o ≢ i = ground arith in
          let before : HoldsAt queues' i ps =
            λ r at_i. h r (sym (get_elem?-update_ne queues _ o i ne) ∙ at_i) in
          rw other (send_all-HoldsAt os queues' buffer size i ps before apart.1 readable q e)
    ]

-- Where no queue is twice among a node's outputs and the buffer has `size` bytes,
-- `node_send_to_outputs` pushes the packet once into each of the output queues, and leaves every
-- other queue holding what it held. An output without room goes without the packet.
pub node_send_to_outputs-HoldsAt :
    (node : Node) (queues : List Queue) (buffer : Bytes) (size i : ℕ) (ps : Fifo)
    → Distinct node.output_queues
    → size ≤ length buffer
    → HoldsAt queues i ps
    → HoldsAt
        (node_send_to_outputs (some node) queues (some buffer) size)
        i
        (delivered node.output_queues i ps buffer size)
unfolding node_send_to_outputs
node_send_to_outputs-HoldsAt node queues buffer size i ps apart readable h =
    send_all-HoldsAt node.output_queues queues buffer size i ps h apart readable
