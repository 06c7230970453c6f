-- ===== src/Queue.antt =====
-- queue/queue.h and queue/queue.c: a bounded ring of packets guarded by one mutex, and its
-- condition variable. Each function here is one critical section: the code between the lock and
-- the unlock of `cond_mutex`. A function that changes `*q` returns the new queue beside its result.
pub mod Holds
pub mod Takes
pub mod Fifo
pub mod Refine
pub mod Waits
pub mod Steps
pub mod Sound
pub mod Monitor
mod Tests
use vlan_tagger.Prelude.{
  ℕ, ◌+◌, ◌-◌, Bool, not, List, [], ◌∷◌, ◌++◌, Option, none, some, ltb, leb, ◌==◌, if◌then◌else◌, ℤ,
  pos, minus_one, Bytes, length, get_or, set, take, drop, replicate,
}

-- `Q_SIZE` and `MAX_PKG_SIZE`.
abbrev pub q_size : ℕ
q_size = 1000

abbrev pub max_pkg_size : ℕ
max_pkg_size = 1522

-- The threads at `pthread_cond_wait` on `condition`: still blocked, or released and about to test
-- the queue again.
pub record Condition : Type 0 where
  pub blocked : ℕ
  pub released : ℕ

-- `Queue_t`; `rw_lock` is never used by the code.
pub record Queue : Type 0 where
  pub slots : List Bytes
  pub sizes : List ℕ
  pub front : ℕ
  pub rear : ℕ
  pub condition : Condition

-- A packet's bytes at the start of what was there.
abbrev pub overwritten : Bytes → Bytes → ℕ → Bytes
overwritten dst src n = take n src ++ drop n dst

-- `memcpy(dst, src, n)` into a buffer of the caller; `none` is a write behind its end.
abbrev pub memcpy : Bytes → Bytes → ℕ → Option Bytes
memcpy dst src n = if leb n (length dst) then some (overwritten dst src n) else none

-- The cells of the two arrays at an index.
abbrev pub size_at : Queue → ℕ → ℕ
size_at q i = get_or q.sizes i 0

abbrev pub slot_at : Queue → ℕ → Bytes
slot_at q i = get_or q.slots i []

-- `next`
pub next : ℕ → ℕ
next num = if num == q_size - 1 then 0 else num + 1

-- `init`: the arguments are whether `pthread_mutex_init` and `pthread_cond_init` succeed. The packet
-- array keeps what it held.
unfoldable pub init : Bool → Bool → Queue → ℤ × Queue
init mutex_made cond_made q =
    if not mutex_made then (minus_one, q) else if not cond_made then (minus_one, q) else (
      pos 0,
      record q {
        sizes = replicate q_size 0;
        front = 0;
        rear = 0;
        condition = record { blocked = 0; released = 0 };
      },
    )

pub is_full : Queue → Bool
is_full q = not (size_at q q.rear == 0)

pub is_empty : Queue → Bool
is_empty q = size_at q q.front == 0

-- `pthread_cond_signal`: one blocked thread, if there is one, is released.
pub signal : Condition → Condition
signal c =
    if c.blocked == 0 then c else record { blocked = c.blocked - 1; released = c.released + 1 }

-- `push`; the slot that it writes is an array of `max_pkg_size` bytes, and `size` is not more.
pub push : Queue → Bytes → ℕ → ℤ × Queue
unfolding is_full
push q buf size =
    if ltb max_pkg_size size
    then (minus_one, q)
    else if size == 0
    then (pos 0, q)
    else if is_full q
    then (pos 0, q)
    else (
      pos size,
      record q {
        slots = set q.slots q.rear (overwritten (slot_at q q.rear) buf size);
        sizes = set q.sizes q.rear size;
        rear = next q.rear;
        condition = signal q.condition;
      },
    )

-- Clearing the front cell and moving on, as `remove_front` and `pop` do.
pub clear_front : Queue → Queue
clear_front q = record q { sizes = set q.sizes q.front 0; front = next q.front }

-- `remove_front`
pub remove_front : Queue → Queue
unfolding is_empty
remove_front q = if is_empty q then q else clear_front q

-- How one call of `pthread_cond_wait` in `pop` ends: with an error, or with the mutex held again
-- and the queue as the other threads left it.
pub data Wakeup : Type 0 where
  failed : Queue → Wakeup
  woken : Queue → Wakeup

-- Where `pop` has come to when the listed wake-ups are used up: it waits, it has written behind the
-- end of the caller's buffer, or it has returned, with the buffer and the queue.
pub data Popped : Type 0 where
  waiting : Popped
  overrun : Popped
  returned : ℤ → Bytes → Queue → Popped

-- What `pop` does once its loop has found an element.
pub take_front : Queue → Bytes → Popped
take_front q buff = elim (memcpy buff (slot_at q q.front) (size_at q q.front)) [
  | none ↦ overrun
  | some buff' ↦ returned (pos (size_at q q.front)) buff' (clear_front q)
]

-- `pop`: the loop goes round once for each wake-up.
pub pop : Queue → Bytes → List Wakeup → Popped
unfolding is_empty take_front
pop q buff [] = if is_empty q then waiting else take_front q buff
pop q buff (failed r ∷ ws) = if is_empty q then returned minus_one buff r else take_front q buff
pop q buff (woken r ∷ ws) =
    let again = pop r buff ws in if is_empty q then again else take_front q buff

-- What `front` and `back` do with the cell that they read.
pub read_cell : Queue → ℕ → Bytes → Option (ℤ × Bytes)
read_cell q i buff = elim (memcpy buff (slot_at q i) (size_at q i)) [
  | none ↦ none
  | some buff' ↦ some (pos (size_at q i), buff')
]

-- `front`; `none` is a write behind the end of the caller's buffer.
pub front : Queue → Bytes → Option (ℤ × Bytes)
unfolding is_empty read_cell
front q buff = if is_empty q then some (minus_one, buff) else read_cell q q.front buff

-- the cell before `rear`
pub before_rear : Queue → ℕ
before_rear q = if q.rear == 0 then q_size - 1 else q.rear - 1

-- `back`, as `front`.
pub back : Queue → Bytes → Option (ℤ × Bytes)
unfolding is_empty before_rear read_cell
back q buff = if is_empty q then some (minus_one, buff) else read_cell q (before_rear q) buff

-- `send_signal_queue`
pub send_signal_queue : Queue → Queue
unfolding signal
send_signal_queue q = record q { condition = signal q.condition }

-- `queue_destroy`: the arguments are whether the two `pthread_..._destroy` calls succeed.
pub queue_destroy : Bool → Bool → ℤ
queue_destroy mutex_gone cond_gone =
    let res = if mutex_gone then pos 0 else minus_one in if cond_gone then res else minus_one
