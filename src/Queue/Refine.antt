-- ===== src/Queue/Refine.antt =====
-- queue/queue.c against the list of packets of Fifo: each function does to the ring what the
-- function of the same name does to the list, with the same return value and the same buffer.
use vlan_tagger.Prelude.{
  ℕ, ◌+◌, ◌%◌, ◌≤◌, ◌<◌, ◌≡◌, refl, subst, inl, inr, true, false, List, [], ◌∷◌, ◌++◌, some, arith,
  ltb, leb, ◌==◌, pos, Bytes, length, get_elem?, Bool-cases,
}
use vlan_tagger.Queue.Fifo
use vlan_tagger.Queue.Fifo.{Fifo, last, over}
use vlan_tagger.Queue.Holds.{
  Cell, Holds, front-Cell, stored-Holds, is_empty-nil, is_empty-cons, is_full-Holds,
}
use vlan_tagger.Queue.Takes.{clear_front-Holds}
use vlan_tagger.Queue.{
  Queue, q_size, max_pkg_size, memcpy, size_at, slot_at, push, clear_front, remove_front, front,
  back, before_rear, read_cell, take_front, Wakeup, failed, woken, overrun, returned, pop,
}

-- Where the ring holds `ps` and `buf` has `size` bytes to read, `push` returns what the list's
-- `push` returns, and leaves the ring holding the list's result.
pub push-Holds :
    (q : Queue) (ps : Fifo) (buf : Bytes) (size : ℕ)
    → Holds q ps
    → size ≤ length buf
    → ((push q buf size).0 ≡ (Fifo.push ps buf size).0)
      × Holds (push q buf size).1 (Fifo.push ps buf size).1
unfolding push Fifo.push
push-Holds q ps buf size v readable = elim (Bool-cases (ltb max_pkg_size size)) [
  | inl long ↦ rw long (refl, v)
  | inr short ↦ elim (Bool-cases (size == 0)) [
    | inl e ↦ rw (short, e) (refl, v)
    | inr nonempty ↦ elim (Bool-cases (length ps == q_size)) [
      | inl full ↦ rw (short, nonempty, is_full-Holds q ps v, full) (refl, v)
      | inr room ↦
          rw (short, nonempty, is_full-Holds q ps v, room)
            (
              refl,
              stored-Holds v buf size (ground arith) (ground arith) readable
                  (ground (arith, v.fits)),
            )
    ]
  ]
]

-- A cell that holds a packet, read into a buffer with room for it.
read-Cell :
    (q : Queue) (i : ℕ) (p buff : Bytes)
    → Cell q i (some p)
    → length p ≤ length buff
    → memcpy buff (slot_at q i) (size_at q i) ≡ some (over p buff)
read-Cell q i p buff c room =
    let inside : leb (length p) (length buff) ≡ true = ground arith in rw (c.0, inside, c.3)

read_cell-Cell :
    (q : Queue) (i : ℕ) (p buff : Bytes)
    → Cell q i (some p)
    → length p ≤ length buff
    → read_cell q i buff ≡ some (pos (length p), over p buff)
unfolding read_cell
read_cell-Cell q i p buff c room = rw (read_cell, read-Cell q i p buff c room, c.0)

take_front-Holds :
    (q : Queue) (p : Bytes) (ps : Fifo) (buff : Bytes)
    → Holds q (p ∷ ps)
    → length p ≤ length buff
    → take_front q buff ≡ returned (pos (length p)) (over p buff) (clear_front q)
unfolding take_front
take_front-Holds q p ps buff v room =
    let c = front-Cell v in rw (take_front, read-Cell q q.front p buff c room, c.0)

-- Where the ring holds `ps`, `remove_front` leaves it holding `ps` without its oldest packet.
pub remove_front-Holds :
    (q : Queue) (ps : Fifo) → Holds q ps → Holds (remove_front q) (Fifo.remove_front ps)
unfolding remove_front Fifo.remove_front
remove_front-Holds q [] v = rw (is_empty-nil q v) v
remove_front-Holds q (p ∷ ps) v = rw (is_empty-cons q p ps v) (clear_front-Holds v)

-- Where the ring holds `ps`, and the buffer has room for every packet of the queue, `front` returns
-- what the list's `front` returns: the size of the oldest packet, which it writes over the start of
-- the buffer, or -1.
pub front-Holds :
    (q : Queue) (ps : Fifo) (buff : Bytes)
    → Holds q ps
    → max_pkg_size ≤ length buff
    → front q buff ≡ some (Fifo.front ps buff)
unfolding front Fifo.front
front-Holds q [] buff v room = rw (is_empty-nil q v)
front-Holds q (p ∷ ps) buff v room =
    let c = front-Cell v in
    rw (is_empty-cons q p ps v, read_cell-Cell q q.front p buff c (omega (arith, c.2)))

get_elem?-last : (p : Bytes) (ps : Fifo) → get_elem? (p ∷ ps) (length ps) ≡ some (last p ps)
get_elem?-last p [] = refl
get_elem?-last p (r ∷ ps) = get_elem?-last r ps

back-Cell :
    (q : Queue) (p : Bytes) (ps : Fifo)
    → Holds q (p ∷ ps)
    → Cell q (before_rear q) (some (last p ps))
back-Cell q p ps v =
    rw at_last
      (subst (Cell q _) (get_elem?-last p ps) (v.cells (length ps) (omega (arith, v.fits))))
  where
    at_last : before_rear q ≡ (q.front + length ps) % q_size
    at_last = unfold before_rear in ground (arith, v.rear_at, v.front_in, v.fits)

-- Where the ring holds `ps`, and the buffer has room for every packet of the queue, `back` returns
-- what the list's `back` returns: the size of the newest packet, which it writes over the start of the
-- buffer, or -1.
pub back-Holds :
    (q : Queue) (ps : Fifo) (buff : Bytes)
    → Holds q ps
    → max_pkg_size ≤ length buff
    → back q buff ≡ some (Fifo.back ps buff)
unfolding back Fifo.back
back-Holds q [] buff v room = rw (is_empty-nil q v)
back-Holds q (p ∷ ps) buff v room =
    let c = back-Cell q p ps v in
    rw (
      is_empty-cons q p ps v,
      read_cell-Cell q (before_rear q) (last p ps) buff c (omega (arith, c.2)),
    )

-- Where the ring holds a packet for which the buffer has room, `pop` returns at once, whatever
-- wake-ups would come: the size of the oldest packet, that packet over the start of the buffer, and a
-- ring that holds the later packets.
pub pop-Holds :
    (q : Queue) (p : Bytes) (ps : Fifo) (buff : Bytes) (ws : List Wakeup)
    → Holds q (p ∷ ps)
    → length p ≤ length buff
    → (pop q buff ws ≡ returned (pos (length p)) (over p buff) (clear_front q))
      × Holds (clear_front q) ps
unfolding pop
pop-Holds q p ps buff ws v room = (at_once ws, clear_front-Holds v)
  where
    at_once :
        (ws : List Wakeup) → pop q buff ws ≡ returned (pos (length p)) (over p buff) (clear_front q)
    at_once [] = rw (is_empty-cons q p ps v, take_front-Holds q p ps buff v room)
    at_once (failed r ∷ ws) = rw (is_empty-cons q p ps v, take_front-Holds q p ps buff v room)
    at_once (woken r ∷ ws) = rw (is_empty-cons q p ps v, take_front-Holds q p ps buff v room)

-- Where the buffer has no room for the oldest packet, `pop` writes behind its end.
pub pop_overrun :
    (q : Queue) (p : Bytes) (ps : Fifo) (buff : Bytes)
    → Holds q (p ∷ ps)
    → length buff < length p
    → pop q buff [] ≡ overrun
unfolding pop take_front
pop_overrun q p ps buff v short =
    let c = front-Cell v in
    let outside : leb (length p) (length buff) ≡ false = ground arith in
    rw (is_empty-cons q p ps v, take_front, c.0, outside)

-- Every wake-up so far found the ring empty, as `pop` did at the start.
abbrev pub Asleep : Queue → List Wakeup → Type 0
Asleep q [] = Holds q []
Asleep q (failed r ∷ ws) = ⊥
Asleep q (woken r ∷ ws) = Holds q [] × Asleep r ws

-- Where every wake-up before found the ring empty, the first one that finds a packet for which the
-- buffer has room ends the wait: `pop` returns the size of the oldest packet of the ring as it is then,
-- with that packet over the start of the buffer, and leaves a ring that holds the later packets.
pub pop_woken :
    (ws : List Wakeup) (q r : Queue) (p : Bytes) (ps : Fifo) (buff : Bytes) (later : List Wakeup)
    → Asleep q ws
    → Holds r (p ∷ ps)
    → length p ≤ length buff
    → (r' : Queue) × (pop q buff (ws ++ woken r ∷ later)
        ≡ returned (pos (length p)) (over p buff) r')
      × Holds r' ps
unfolding pop
pop_woken [] q r p ps buff later v found room =
    let (at_once, left) = pop-Holds r p ps buff later found room in
    (clear_front r, rw (is_empty-nil q v) at_once, left)
pop_woken (failed s ∷ ws) q r p ps buff later v found room = absurd v
pop_woken (woken s ∷ ws) q r p ps buff later v found room =
    let (r', e, left) = pop_woken ws s r p ps buff later v.1 found room in
    (r', rw (is_empty-nil q v.0) e, left)
