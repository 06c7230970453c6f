-- ===== src/Queue/Holds.antt =====
-- queue/queue.c: the ring as the list of packets that it holds, and what each operation makes of
-- that list.
use vlan_tagger.Prelude.{
  ℕ, ◌+◌, ◌%◌, ◌≤◌, ◌<◌, ◌≡◌, ◌≢◌, refl, sym, subst, ◌∙◌, true, false, List, [], ◌∷◌, ◌++◌, Option,
  none, some, arith, ◌==◌, pos, Bytes, length, get_elem?, set, take, drop, length-append,
  length-set, get_or-set_self, get_or-set_ne, length-replicate, get_or-replicate, length-take,
  take-append, get_elem?-append_length, get_elem?-append_ne, get_elem?-ge, ℕ_discrete,
}
use vlan_tagger.Queue.{
  Queue, q_size, max_pkg_size, overwritten, size_at, slot_at, next, init, is_full, is_empty, signal,
}

-- A cell of the ring that holds a packet, or is free.
abbrev pub Cell : Queue → ℕ → Option Bytes → Type 0
Cell q i none = size_at q i ≡ 0
Cell q i (some p) =
    (size_at q i ≡ length p)
    × (0 < length p)
    × (length p ≤ max_pkg_size)
    × (take (length p) (slot_at q i) ≡ p)

-- The ring holds exactly the packets `ps`, oldest first, from `front` on and round the end.
pub record Holds (q : Queue) (ps : List Bytes) : Type 0 where
  pub front_in : q.front < q_size
  pub rear_at : q.rear ≡ (q.front + length ps) % q_size
  pub fits : length ps ≤ q_size
  pub all_sizes : length q.sizes ≡ q_size
  pub all_slots : length q.slots ≡ q_size
  pub cells : (k : ℕ) → k < q_size → Cell q ((q.front + k) % q_size) (get_elem? ps k)

pub next-mod : (i : ℕ) → i < q_size → next i ≡ (i + 1) % q_size
unfolding next
next-mod i h = ground arith

-- A cell does not change where neither of its array entries does.
pub Cell-eq :
    (q r : Queue) (i : ℕ) (o : Option Bytes)
    → size_at r i ≡ size_at q i
    → slot_at r i ≡ slot_at q i
    → Cell q i o
    → Cell r i o
Cell-eq q r i none e f c = e ∙ c
Cell-eq q r i (some p) e f c = (e ∙ c.0, c.1, c.2, rw f c.3)

-- Where both pthread calls succeed, `init` returns 0 on a queue with its 1000 slots, and leaves
-- it a valid ring that holds no packet.
pub init-Holds :
    (q : Queue)
    → length q.slots ≡ q_size
    → ((init true true q).0 ≡ pos 0) × Holds (init true true q).1 []
unfolding init
init-Holds q h = (
  refl,
  record {
    front_in = omega arith;
    rear_at = refl;
    fits = omega arith;
    all_sizes = length-replicate {A = ℕ} q_size 0;
    all_slots = h;
    cells = λ k lt. get_or-replicate {A = ℕ} q_size ((0 + k) % q_size) 0;
  },
)

module _ {q : Queue} {ps : List Bytes} (v : Holds q ps) where
  pub front-Cell : Cell q q.front (get_elem? ps 0)
  front-Cell =
      let e : (q.front + 0) % q_size ≡ q.front = omega (arith, v.front_in) in
      rw e at (v.cells 0 (omega arith))

  rear_cell : length ps < q_size → size_at q q.rear ≡ 0
  rear_cell h =
      rw v.rear_at
        (subst (Cell q _) (get_elem?-ge ps (length ps) (omega arith)) (v.cells (length ps) h))

  pub rear_in : q.rear < q_size
  rear_in = omega (arith, v.rear_at)

  -- the queue that `push` leaves behind where it stores `size` bytes of `buf`
  module _ (buf : Bytes) (size : ℕ) where
    abbrev pub stored : Queue
    stored = record q {
      slots = set q.slots q.rear (overwritten (slot_at q q.rear) buf size);
      sizes = set q.sizes q.rear size;
      rear = next q.rear;
      condition = signal q.condition;
    }

    module _ (some_bytes : 0 < size) (small : size ≤ max_pkg_size)
        (readable : size ≤ length buf) where
      length-packet : length (take size buf) ≡ size
      length-packet = omega (arith, length-take size buf)

      new-Cell : Cell stored q.rear (some (take size buf))
      new-Cell = (
        get_or-set_self q.sizes q.rear size 0 (omega (arith, rear_in, v.all_sizes))
            ∙ sym length-packet,
        omega (arith, length-packet),
        omega (arith, length-packet),
        rw
            (get_or-set_self q.slots q.rear (overwritten (slot_at q q.rear) buf size) []
              (omega (arith, rear_in, v.all_slots)))
            (take-append (take size buf) (drop size (slot_at q q.rear))),
      )

      old-Cell :
          (k : ℕ)
          → k < q_size
          → q.rear ≢ (q.front + k) % q_size
          → Cell stored ((q.front + k) % q_size) (get_elem? ps k)
      old-Cell k lt ne =
          Cell-eq q stored ((q.front + k) % q_size) (get_elem? ps k)
            (get_or-set_ne q.sizes q.rear _ size 0 ne)
            (get_or-set_ne q.slots q.rear _ (overwritten (slot_at q q.rear) buf size) [] ne)
            (v.cells k lt)

      stored-cells :
          length ps < q_size
          → (k : ℕ) → k < q_size
          → Cell stored ((q.front + k) % q_size) (get_elem? (ps ++ take size buf ∷ []) k)
      stored-cells room k lt = elim (ℕ_discrete k (length ps)) [
        | yes e ↦ rw (get_elem?-append_length ps (take size buf) k e) (
            let here : (q.front + k) % q_size ≡ q.rear = omega (arith, v.rear_at) in
            rw here new-Cell)
        | no other ↦
            rw (get_elem?-append_ne ps (take size buf) k other)
              (old-Cell k lt (omega (arith, v.rear_at)))
      ]

      pub stored-Holds : length ps < q_size → Holds stored (ps ++ take size buf ∷ [])
      stored-Holds room = record {
        front_in = v.front_in;
        rear_at =
            next-mod q.rear rear_in
            ∙ omega (arith, v.rear_at, length-append ps (take size buf ∷ []));
        fits = omega (arith, length-append ps (take size buf ∷ []));
        all_sizes = length-set q.sizes q.rear size ∙ v.all_sizes;
        all_slots =
            length-set q.slots q.rear (overwritten (slot_at q q.rear) buf size) ∙ v.all_slots;
        cells = stored-cells room;
      }

-- A valid ring is empty just when it holds no packet, and full just when it holds `q_size`.
pub is_empty-Holds : (q : Queue) (ps : List Bytes) → Holds q ps → is_empty q ≡ (length ps == 0)
unfolding is_empty
is_empty-Holds q [] v = ground (arith, front-Cell v)
is_empty-Holds q (p ∷ ps) v = ground (arith, front-Cell v)

pub is_empty-nil : (q : Queue) → Holds q [] → is_empty q ≡ true
is_empty-nil q v = is_empty-Holds q [] v

pub is_empty-cons :
    (q : Queue) (p : Bytes) (ps : List Bytes) → Holds q (p ∷ ps) → is_empty q ≡ false
is_empty-cons q p ps v = is_empty-Holds q (p ∷ ps) v ∙ ground arith

pub is_full-Holds : (q : Queue) (ps : List Bytes) → Holds q ps → is_full q ≡ (length ps == q_size)
unfolding is_full
is_full-Holds q [] v = ground (arith, rear_cell v)
is_full-Holds q (p ∷ ps) v = elim (ℕ_discrete (length (p ∷ ps)) q_size) [
  | yes e ↦
      let same : q.front ≡ q.rear = omega (arith, v.rear_at, v.front_in) in
      let c = front-Cell v in
      let filled : size_at q q.rear ≡ length p = rw (← same) c.0 in ground (arith, filled, c.1)
  | no ne ↦ ground (arith, rear_cell v (omega (arith, v.fits)))
]
