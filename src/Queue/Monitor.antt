-- ===== src/Queue/Monitor.antt =====
-- queue/queue.c: what holds in every state that the steps of its threads reach.
use vlan_tagger.Queue.Sound.{
  Covered, Sound, conditioned-Holds, push-Covered, push-packet_of, After, pop-After, Removed,
  front-Removed, conditioned-Sound, empty-Covered,
}
use vlan_tagger.Prelude.{
  ℕ, ◌≤◌, ◌≡◌, refl, sym, ◌∙◌, subst, true, List, [], ◌++◌, arith, ◌⊎◌, inl, inr, Bytes, length,
  dec_lt, append_assoc, append-nil, Bool-cases,
}
use vlan_tagger.Queue.Steps.{
  packet_of, conditioned, retest, unblock, block, Step, pushes, removes, takes, blocks,
  takes_at_last, blocks_again, gives_up, signals, wakes, Reach, here, after,
}
use vlan_tagger.Queue.Fifo
use vlan_tagger.Queue.Fifo.{Fifo, over}
use vlan_tagger.Queue.Holds.{Holds, init-Holds}
use vlan_tagger.Queue.Refine.{push-Holds}
use vlan_tagger.Queue.Waits.{pop_waits, pop_resumes, pop_fails}
use vlan_tagger.Queue.{
  Queue, Condition, q_size, init, is_empty, pop, Popped, waiting, overrun, returned, signal,
  send_signal_queue,
}

-- A `pop` that waits has found the ring empty.
empty_at : (q : Queue) (buff : Bytes) → pop q buff [] ≡ waiting → is_empty q ≡ true
empty_at q buff e = elim (Bool-cases (is_empty q)) [
  | inl empty ↦ empty
  | inr other ↦ absurd (pop_waits q buff other e)
]

-- What is so where a call returned.
abbrev Given : List Bytes → List Bytes → Popped → Type 0
Given put taken waiting = Unit
Given put taken overrun = Unit
Given put taken (returned n b r) = Sound put (taken ++ packet_of n b) r

none_put : {put taken : List Bytes} {q : Queue} → Sound put taken q → Sound (put ++ []) taken q
none_put {put} s = rw (append-nil put) s

Step-Sound :
    {put taken : List Bytes} {q : Queue} {put1 taken1 : List Bytes} {r : Queue}
    → Step q put1 taken1 r
    → Sound put taken q
    → Sound (put ++ put1) (taken ++ taken1) r
Step-Sound {put} {taken} {q = q} (pushes buf size readable) s =
    let (same, holds) = push-Holds q s.packets buf size s.holds readable in
    let went_in = push-packet_of s.packets buf size in
    record {
      packets = (Fifo.push s.packets buf size).1;
      holds = holds;
      covered = push-Covered q s.packets buf size s.holds s.covered;
      in_order =
          rw (same, s.in_order, append-nil taken, went_in)
            (append_assoc taken s.packets (packet_of (Fifo.push s.packets buf size).0 buf));
    }
Step-Sound {put} {taken} {q = q} (removes buff b n room e) s = none_put (
    subst (Removed put taken q buff room) e
      (front-Removed put taken q buff room s.packets s.holds s.covered s.in_order))
Step-Sound {put} {taken} {q = q} (takes buff b n r room e) s = none_put (
    subst (After put taken q buff room) e (
      pop-After put taken q buff room s.packets s.holds (λ h. omega (arith, s.covered h))
        s.in_order))
Step-Sound {put} {taken} {q = q} (blocks buff e) s =
    conditioned-Sound q (block q.condition) s
      (empty-Covered q s.packets (block q.condition) s.holds (empty_at q buff e))
Step-Sound {put} {taken} {q = q} (takes_at_last q0 ws buff b n r room h waits e) s =
    let q1 = conditioned q (retest q.condition) in
    none_put (
      subst (After put taken q1 buff room) (sym (pop_resumes ws q0 q1 buff waits) ∙ e) (
        pop-After put taken q1 buff room s.packets
          (conditioned-Holds q (retest q.condition) s.holds) (λ b. omega (arith, s.covered b))
          s.in_order))
Step-Sound {put} {taken} {q = q} (blocks_again q0 ws buff h waits e) s =
    let q1 = conditioned q (retest q.condition) in
    let empty = empty_at q1 buff (sym (pop_resumes ws q0 q1 buff waits) ∙ e) in
    conditioned-Sound q (block (retest q.condition)) s (
      empty-Covered q1 s.packets (block (retest q.condition))
        (conditioned-Holds q (retest q.condition) s.holds) empty)
Step-Sound {put} {taken} {q = q} (gives_up q0 ws buff b n r h waits e) s =
    let q1 = conditioned q (unblock q.condition) in
    subst (Given (put ++ []) taken) (sym (pop_fails ws q0 q1 buff waits) ∙ e)
      (conditioned-Sound q (unblock q.condition) s (λ b. s.covered (omega arith)))
Step-Sound {put} {taken} {q = q} signals s =
    unfold send_signal_queue signal in conditioned-Sound q _ s (ground (arith, s.covered))
Step-Sound {put} {taken} {q = q} (wakes h) s =
    conditioned-Sound q (signal q.condition) s (unfold signal in ground (arith, s.covered))

Reach-Sound :
    {q : Queue} {put taken : List Bytes} {r : Queue}
    → Sound [] [] q
    → Reach q put taken r
    → Sound put taken r
Reach-Sound s here = s
Reach-Sound s (after w st) = Step-Sound st (Reach-Sound s w)

init-Sound : (q : Queue) → length q.slots ≡ q_size → Sound [] [] (init true true q).1
init-Sound q h = record {
  packets = [];
  holds = (init-Holds q h).1;
  covered = λ _. omega arith;
  in_order = refl;
}

Covered-cases : (c : Condition) (n : ℕ) → Covered c n → (c.blocked ≡ 0) ⊎ (n ≤ c.released)
Covered-cases c n h = elim (dec_lt 0 c.blocked) [ yes b ↦ inr (h b) | no b ↦ inl (omega arith) ]

-- From a queue on that has its 1000 slots and was just initialised, in every state that any
-- interleaving of pushes, removals, pops and signals reaches: the packets that callers of `push` put
-- into the ring are those that callers of `pop` and `remove_front` took out, in the same order, and
-- behind them those that the ring holds; and either no thread is blocked in `pop` or at least as many
-- threads are released as the ring holds packets, so no wake-up is lost.
pub Reach-covered :
    (q : Queue) {put taken : List Bytes} {r : Queue}
    → length q.slots ≡ q_size
    → Reach (init true true q).1 put taken r
    → (ps : Fifo) × Holds r ps
      × (put ≡ taken ++ ps)
      × ((r.condition.blocked ≡ 0) ⊎ (length ps ≤ r.condition.released))
Reach-covered q h w =
    let s = Reach-Sound (init-Sound q h) w in
    (s.packets, s.holds, s.in_order, Covered-cases _ (length s.packets) s.covered)
