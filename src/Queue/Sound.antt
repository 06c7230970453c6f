-- ===== src/Queue/Sound.antt =====
-- queue/queue.c: a ring that holds what was put into it and not taken, and what the calls make of it.
use vlan_tagger.Prelude.{
  ℕ, zero, suc, ◌+◌, ◌%◌, ◌≤◌, ◌<◌, ◌≡◌, refl, sym, ap, ◌∙◌, true, false, List, [], ◌∷◌, ◌++◌,
  Option, none, some, arith, inl, inr, ℤ, pos, Bytes, length, ltb, ◌==◌, get_elem?, length-append,
  take, drop, take-append, append_assoc, append-nil, Bool-cases,
}
use vlan_tagger.Queue.Steps.{packet_of, conditioned}
use vlan_tagger.Queue.Fifo
use vlan_tagger.Queue.Fifo.{Fifo, over}
use vlan_tagger.Queue.Holds.{Cell-eq, Holds, front-Cell, is_full-Holds, is_empty-nil, is_empty-cons}
use vlan_tagger.Queue.Takes.{clear_front-Holds}
use vlan_tagger.Queue.Refine.{front-Holds, pop-Holds}
use vlan_tagger.Queue.Waits.{pop_waiting}
use vlan_tagger.Queue.{
  Queue, Condition, q_size, max_pkg_size, push, is_empty, clear_front, remove_front, front, pop,
  Popped, waiting, overrun, returned, signal,
}

-- While a thread is blocked at least as many threads are released as there are packets.
abbrev pub Covered : Condition → ℕ → Type 0
Covered c n = 0 < c.blocked → n ≤ c.released

-- The ring holds what was put and not taken, in order.
pub record Sound (put taken : List Bytes) (q : Queue) : Type 0 where
  pub packets : Fifo
  pub holds : Holds q packets
  pub covered : Covered q.condition (length packets)
  pub in_order : put ≡ taken ++ packets

-- The condition variable is no part of what a ring holds.
pub conditioned-Holds :
    (q : Queue) (c : Condition) {ps : Fifo} → Holds q ps → Holds (conditioned q c) ps
conditioned-Holds q c {ps} v = record {
  front_in = v.front_in;
  rear_at = v.rear_at;
  fits = v.fits;
  all_sizes = v.all_sizes;
  all_slots = v.all_slots;
  cells = λ k lt.
      Cell-eq q (conditioned q c) ((q.front + k) % q_size) (get_elem? ps k) refl refl
        (v.cells k lt);
}

pub push-Covered :
    (q : Queue) (ps : Fifo) (buf : Bytes) (size : ℕ)
    → Holds q ps
    → Covered q.condition (length ps)
    → Covered (push q buf size).1.condition (length (Fifo.push ps buf size).1)
unfolding push Fifo.push signal
push-Covered q ps buf size v c =
    ground (arith, is_full-Holds q ps v, length-append ps (take size buf ∷ []))

remove_front-Covered :
    (q : Queue) (ps : Fifo)
    → Holds q ps
    → Covered q.condition (length ps)
    → Covered (remove_front q).condition (length (Fifo.remove_front ps))
unfolding remove_front Fifo.remove_front clear_front
remove_front-Covered q [] v c = ground (arith, is_empty-nil q v)
remove_front-Covered q (p ∷ ps) v c = ground (arith, is_empty-cons q p ps v)

-- What is in the ring behind a push is what was there, and the packet that went in.
pub push-packet_of :
    (ps : Fifo) (buf : Bytes) (size : ℕ)
    → (Fifo.push ps buf size).1 ≡ ps ++ packet_of (Fifo.push ps buf size).0 buf
unfolding Fifo.push
push-packet_of ps buf zero = sym (append-nil ps)
push-packet_of ps buf (suc n) =
    let not_none : (suc n == 0) ≡ false = ground arith in
    elim (Bool-cases (ltb max_pkg_size (suc n))) [
      | inl long ↦ rw long (sym (append-nil ps))
      | inr short ↦ elim (Bool-cases (length ps == q_size)) [
        | inl full ↦ rw (short, not_none, full) (sym (append-nil ps))
        | inr room ↦ rw (short, not_none, room)
      ]
    ]

-- The packet that a caller reads is the one that was in the ring.
packet_of-over :
    (q : Queue) (p : Bytes) (ps : Fifo) (buff : Bytes)
    → Holds q (p ∷ ps)
    → packet_of (pos (length p)) (over p buff) ≡ p ∷ []
packet_of-over q [] ps buff v = absurd (let c = front-Cell v in omega (arith, c.1))
packet_of-over q (c ∷ p) ps buff v =
    ap (λ t. t ∷ []) (take-append (c ∷ p) (drop (length (c ∷ p)) buff))

-- A ring from which its oldest packet went to a caller.
module _ (put taken : List Bytes) (q : Queue) (buff : Bytes)
    (room : max_pkg_size ≤ length buff) where
  taken-Sound :
      (p : Bytes) (ps : Fifo)
      → Holds q (p ∷ ps)
      → (0 < q.condition.blocked → length (p ∷ ps) ≤ q.condition.released + 1)
      → put ≡ taken ++ p ∷ ps
      → Sound put (taken ++ packet_of (pos (length p)) (over p buff)) (clear_front q)
  taken-Sound p ps v c e = record {
    packets = ps;
    holds = clear_front-Holds v;
    covered = unfold clear_front in λ h. omega (arith, c h);
    in_order = rw (packet_of-over q p ps buff v) (e ∙ sym (append_assoc taken (p ∷ []) ps));
  }

  -- What is so wherever a `pop` goes on.
  abbrev pub After : Popped → Type 0
  After waiting = is_empty q ≡ true
  After overrun = ⊥
  After (returned n b r) = Sound put (taken ++ packet_of n b) r

  pub pop-After :
      (ps : Fifo)
      → Holds q ps
      → (0 < q.condition.blocked → length ps ≤ q.condition.released + 1)
      → put ≡ taken ++ ps
      → After (pop q buff [])
  pop-After [] v c e = let empty = is_empty-nil q v in rw (pop_waiting q buff empty) empty
  pop-After (p ∷ ps) v c e =
      let cell = front-Cell v in
      rw (pop-Holds q p ps buff [] v (omega (arith, cell.2))).0 (taken-Sound p ps v c e)

  -- What is so where `front` reads a packet that `remove_front` takes.
  abbrev pub Removed : Option (ℤ × Bytes) → Type 0
  Removed none = Unit
  Removed (some (n, b)) = Sound put (taken ++ packet_of n b) (remove_front q)

  pub front-Removed :
      (ps : Fifo)
      → Holds q ps
      → Covered q.condition (length ps)
      → put ≡ taken ++ ps
      → Removed (front q buff)
  unfolding remove_front Fifo.front
  front-Removed [] v c e = rw (front-Holds q [] buff v room) (record {
    packets = [];
    holds = rw (is_empty-nil q v) v;
    covered = rw (is_empty-nil q v) c;
    in_order = e ∙ sym (append-nil (taken ++ []));
  })
  front-Removed (p ∷ ps) v c e =
      rw (front-Holds q (p ∷ ps) buff v room, is_empty-cons q p ps v)
        (taken-Sound p ps v (λ h. omega (arith, c h)) e)

-- A step that changes only the condition variable.
pub conditioned-Sound :
    {put taken : List Bytes} (q : Queue) (c : Condition) (s : Sound put taken q)
    → Covered c (length s.packets)
    → Sound (put ++ []) (taken ++ []) (conditioned q c)
conditioned-Sound {put} {taken} q c s h = record {
  packets = s.packets;
  holds = conditioned-Holds q c s.holds;
  covered = h;
  in_order = rw (append-nil put, append-nil taken) s.in_order;
}

-- In an empty ring no packet is left uncovered.
pub empty-Covered :
    (q : Queue) (ps : Fifo) (c : Condition) → Holds q ps → is_empty q ≡ true → Covered c (length ps)
empty-Covered q [] c v e = λ _. omega arith
empty-Covered q (p ∷ ps) c v e = absurd (cc (is_empty-cons q p ps v))
