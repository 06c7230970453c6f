-- ===== src/Queue/Waits.antt =====
-- queue/queue.c: a call of `pop` at its wait.
use vlan_tagger.Prelude.{
  ℕ, zero, suc, ◌+◌, ◌%◌, ◌≡◌, ◌≢◌, refl, inl, inr, true, false, List, [], ◌∷◌, ◌++◌, minus_one,
  Bytes, get_elem?, replicate, Bool-cases, Option-cases,
}
use vlan_tagger.Queue.Holds.{Cell-eq, Holds}
use vlan_tagger.Queue.{
  Queue, q_size, memcpy, size_at, slot_at, is_empty, take_front, Wakeup, failed, woken, waiting,
  returned, pop, send_signal_queue,
}

-- A call that waits: each wake-up that it had found the ring empty.
pub pop_waiting : (q : Queue) (buff : Bytes) → is_empty q ≡ true → pop q buff [] ≡ waiting
unfolding pop
pop_waiting q buff e = rw e

take_front-returns : (q : Queue) (buff : Bytes) → take_front q buff ≢ waiting
unfolding take_front
take_front-returns q buff e =
    elim (Option-cases (memcpy buff (slot_at q q.front) (size_at q q.front))) [
      | inl outside ↦ absurd (let f = rw (take_front, outside) at e in cc)
      | inr (b, inside) ↦ absurd (let f = rw (take_front, inside) at e in cc)
    ]

pub pop_waits : (q : Queue) (buff : Bytes) → is_empty q ≡ false → pop q buff [] ≢ waiting
unfolding pop
pop_waits q buff other e = take_front-returns q buff (rw other at e)

-- A call of `pop` that has waited so far does what a new call would do when it is woken once more: the
-- loop tests the ring again.
pub pop_resumes :
    (ws : List Wakeup) (q r : Queue) (buff : Bytes)
    → pop q buff ws ≡ waiting
    → pop q buff (ws ++ woken r ∷ []) ≡ pop r buff []
unfolding pop
pop_resumes [] q r buff e = elim (Bool-cases (is_empty q)) [
  | inl empty ↦ rw empty
  | inr other ↦ absurd (take_front-returns q buff (rw other at e))
]
pop_resumes (failed s ∷ ws) q r buff e = elim (Bool-cases (is_empty q)) [
  | inl empty ↦ absurd (let f = rw empty at e in cc)
  | inr other ↦ absurd (take_front-returns q buff (rw other at e))
]
pop_resumes (woken s ∷ ws) q r buff e = elim (Bool-cases (is_empty q)) [
  | inl empty ↦ rw empty (pop_resumes ws s r buff (rw empty at e))
  | inr other ↦ absurd (take_front-returns q buff (rw other at e))
]

-- A call that has waited so far returns -1 where its next wait fails, and leaves the buffer and the
-- ring alone.
pub pop_fails :
    (ws : List Wakeup) (q r : Queue) (buff : Bytes)
    → pop q buff ws ≡ waiting
    → pop q buff (ws ++ failed r ∷ []) ≡ returned minus_one buff r
unfolding pop
pop_fails [] q r buff e = elim (Bool-cases (is_empty q)) [
  | inl empty ↦ rw empty
  | inr other ↦ absurd (take_front-returns q buff (rw other at e))
]
pop_fails (failed s ∷ ws) q r buff e = elim (Bool-cases (is_empty q)) [
  | inl empty ↦ absurd (let f = rw empty at e in cc)
  | inr other ↦ absurd (take_front-returns q buff (rw other at e))
]
pop_fails (woken s ∷ ws) q r buff e = elim (Bool-cases (is_empty q)) [
  | inl empty ↦ rw empty (pop_fails ws s r buff (rw empty at e))
  | inr other ↦ absurd (take_front-returns q buff (rw other at e))
]

-- Wake-ups that find the ring empty.
pub pop-replicate :
    (k : ℕ) (q r : Queue) (buff : Bytes)
    → is_empty q ≡ true
    → is_empty r ≡ true
    → pop q buff (replicate k (woken r)) ≡ waiting
unfolding pop
pop-replicate zero q r buff e f = rw e
pop-replicate (suc k) q r buff e f = rw (e, pop-replicate k r r buff f f)

-- A signal is no packet.
pub send_signal_queue-Holds :
    (q : Queue) (ps : List Bytes) → Holds q ps → Holds (send_signal_queue q) ps
unfolding send_signal_queue
send_signal_queue-Holds q ps v = record {
  front_in = v.front_in;
  rear_at = v.rear_at;
  fits = v.fits;
  all_sizes = v.all_sizes;
  all_slots = v.all_slots;
  cells = λ k lt.
      Cell-eq q (send_signal_queue q) ((q.front + k) % q_size) (get_elem? ps k) refl refl
        (v.cells k lt);
}
