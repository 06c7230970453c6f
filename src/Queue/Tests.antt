-- ===== src/Queue/Tests.antt =====
-- tests/queue_test.c, and the theorems on the queue at concrete inputs.
use vlan_tagger.Prelude.{
  ℕ, ◌≤◌, ◌≡◌, refl, true, [], ◌∷◌, ◌++◌, ◌⊎◌, arith, some, pos, minus_one, Bytes, length,
  replicate, length-replicate,
}
use vlan_tagger.Queue.Fifo
use vlan_tagger.Queue.Fifo.{Fifo}
use vlan_tagger.Queue.Holds.{Holds, init-Holds, is_empty-nil}
use vlan_tagger.Queue.Refine.{push-Holds, remove_front-Holds, pop-Holds, pop_woken}
use vlan_tagger.Queue.Waits.{pop_waiting}
use vlan_tagger.Queue.Steps.{
  Reach, here, after, pushes, blocks, takes_at_last, conditioned, block, retest,
}
use vlan_tagger.Queue.Monitor.{Reach-covered}
use vlan_tagger.Queue.{
  Queue, q_size, max_pkg_size, init, push, pop, front, back, remove_front, clear_front, next,
  signal, woken, overrun, returned,
}

-- The memory of a queue before `init`.
memory : Queue
memory = record {
  slots = replicate q_size (replicate max_pkg_size 0xee);
  sizes = replicate q_size 7;
  front = 3;
  rear = 5;
  condition = record { blocked = 9; released = 9 };
}

fresh : Queue
fresh = (init true true memory).1

memory_slots : length memory.slots ≡ q_size
unfolding memory
memory_slots = length-replicate {A = Bytes} q_size (replicate max_pkg_size 0xee)

abbrev first : Bytes
first = 10 ∷ 11 ∷ 12 ∷ []

abbrev second : Bytes
second = 20 ∷ 21 ∷ []

abbrev buffer : Bytes
buffer = 1 ∷ 2 ∷ 3 ∷ 4 ∷ []

fresh-Holds : Holds fresh []
unfolding fresh
fresh-Holds = (init-Holds memory memory_slots).1

abbrev one : Queue
one = (push fresh first 3).1

abbrev two : Queue
two = (push one second 2).1

one-Holds : Holds one (first ∷ [])
unfolding Fifo.push
one-Holds = (push-Holds fresh [] first 3 fresh-Holds (omega arith)).1

two-Holds : Holds two (first ∷ second ∷ [])
unfolding Fifo.push
two-Holds = (push-Holds one (first ∷ []) second 2 one-Holds (omega arith)).1

-- test_in_order_test
in_order_test :
    (front two buffer ≡ some (pos 3, 10 ∷ 11 ∷ 12 ∷ 4 ∷ []))
    × (back two buffer ≡ some (pos 2, 20 ∷ 21 ∷ 3 ∷ 4 ∷ []))
    × (pop two (1 ∷ 2 ∷ []) [] ≡ overrun)
    × ((push two second 1523).0 ≡ minus_one)
    × ((push two second 0).0 ≡ pos 0)
unfolding front back pop push fresh init memory next signal
in_order_test = (refl, refl, refl, refl, refl)

push-Holds_example : ((push one second 2).0 ≡ pos 2) × Holds two (first ∷ second ∷ [])
unfolding Fifo.push
push-Holds_example = push-Holds one (first ∷ []) second 2 one-Holds (omega arith)

remove_front-Holds_example : Holds (remove_front two) (second ∷ [])
unfolding Fifo.remove_front
remove_front-Holds_example = remove_front-Holds two (first ∷ second ∷ []) two-Holds

pop-Holds_example :
    (pop two buffer (woken fresh ∷ []) ≡ returned (pos 3) (10 ∷ 11 ∷ 12 ∷ 4 ∷ []) (clear_front two))
    × Holds (clear_front two) (second ∷ [])
pop-Holds_example =
    pop-Holds two first (second ∷ []) buffer (woken fresh ∷ []) two-Holds (omega arith)

pop_woken_example :
    (r' : Queue) × (pop fresh buffer (woken fresh ∷ woken two ∷ [])
      ≡ returned (pos 3) (10 ∷ 11 ∷ 12 ∷ 4 ∷ []) r')
    × Holds r' (second ∷ [])
pop_woken_example =
    pop_woken (woken fresh ∷ []) fresh two first (second ∷ []) buffer [] (fresh-Holds, fresh-Holds)
      two-Holds (omega arith)

-- A consumer comes first and blocks; then two packets are pushed, and it takes the first of them.
abbrev asleep : Queue
asleep = conditioned fresh (block fresh.condition)

abbrev pushed : Queue
pushed = (push (push asleep first 3).1 second 2).1

abbrev at_last : Queue
at_last = clear_front (conditioned pushed (retest pushed.condition))

large : Bytes
large = replicate max_pkg_size 0

length-large : length large ≡ max_pkg_size
unfolding large
length-large = length-replicate {A = ℕ} max_pkg_size 0

Reach-at_last : Reach (init true true memory).1 (first ∷ second ∷ []) (first ∷ []) at_last
unfolding fresh large push pop next signal init memory
Reach-at_last =
    after
      (after
        (after
          (after here (blocks large (pop_waiting fresh large (is_empty-nil fresh fresh-Holds))))
          (pushes first 3 (omega arith)))
        (pushes second 2 (omega arith)))
      (takes_at_last fresh [] large (first ++ replicate 1519 0) (pos 3) at_last
        (omega (arith, length-large)) (omega arith)
        (pop_waiting fresh large (is_empty-nil fresh fresh-Holds)) refl)

Reach-covered_example :
    (ps : Fifo) × Holds at_last ps
    × (first ∷ second ∷ [] ≡ first ∷ ps)
    × ((at_last.condition.blocked ≡ 0) ⊎ (length ps ≤ at_last.condition.released))
Reach-covered_example = Reach-covered memory memory_slots Reach-at_last

init-Holds_example : ((init true true memory).0 ≡ pos 0) × Holds (init true true memory).1 []
init-Holds_example = init-Holds memory memory_slots
