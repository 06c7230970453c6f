-- ===== src/Queue/Steps.antt =====
-- queue/queue.c under any interleaving of producers and consumers. A step is one critical section,
-- or a change of the condition variable; `pop` is cut at its wait.
use vlan_tagger.Prelude.{
  ℕ, zero, suc, ◌+◌, ◌-◌, ◌≤◌, ◌<◌, ◌≡◌, List, [], ◌∷◌, ◌++◌, some, ℤ, pos, negsuc, Bytes, length,
  take,
}
use vlan_tagger.Queue.{
  Queue, Condition, max_pkg_size, push, remove_front, front, pop, Wakeup, failed, woken, waiting,
  returned, signal, send_signal_queue,
}

-- A thread blocks at `pthread_cond_wait`.
abbrev pub block : Condition → Condition
block c = record c { blocked = c.blocked + 1 }

-- A released thread has the mutex again.
abbrev pub retest : Condition → Condition
retest c = record c { released = c.released - 1 }

-- A wait that fails ends.
abbrev pub unblock : Condition → Condition
unblock c = record c { blocked = c.blocked - 1 }

abbrev pub conditioned : Queue → Condition → Queue
conditioned q c = record q { condition = c }

-- The packet that a call has put into the ring, or has taken out of it, as its caller sees it: by the
-- value that it returned, and the caller's buffer.
abbrev pub packet_of : ℤ → Bytes → List Bytes
packet_of (pos zero) buff = []
packet_of (pos (suc n)) buff = take (suc n) buff ∷ []
packet_of (negsuc n) buff = []

-- `Step q put taken r`: one step from `q` to `r`, which puts and takes these packets. Where a `pop` goes
-- on and what it returns is what the code's `pop` makes of the wake-ups of that call. Each caller has a
-- buffer of `max_pkg_size` bytes.
pub data Step (q : Queue) : List Bytes → List Bytes → Queue → Type 0 where
  pushes :
      (buf : Bytes) (size : ℕ)
      → size ≤ length buf
      → Step q (packet_of (push q buf size).0 buf) [] (push q buf size).1
  -- `remove_front`; what it takes is what `front` would have read
  removes :
      (buff b : Bytes) (n : ℤ)
      → max_pkg_size ≤ length buff
      → front q buff ≡ some (n, b)
      → Step q [] (packet_of n b) (remove_front q)
  -- a `pop` that comes in
  takes :
      (buff b : Bytes) (n : ℤ) (r : Queue)
      → max_pkg_size ≤ length buff
      → pop q buff [] ≡ returned n b r
      → Step q [] (packet_of n b) r
  blocks :
      (buff : Bytes) → pop q buff [] ≡ waiting → Step q [] [] (conditioned q (block q.condition))
  -- a `pop` that came in at `q0`, went on waiting at the wake-ups `ws`, and was released
  takes_at_last :
      (q0 : Queue) (ws : List Wakeup) (buff b : Bytes) (n : ℤ) (r : Queue)
      → max_pkg_size ≤ length buff
      → 0 < q.condition.released
      → pop q0 buff ws ≡ waiting
      → pop q0 buff (ws ++ woken (conditioned q (retest q.condition)) ∷ []) ≡ returned n b r
      → Step q [] (packet_of n b) r
  blocks_again :
      (q0 : Queue) (ws : List Wakeup) (buff : Bytes)
      → 0 < q.condition.released
      → pop q0 buff ws ≡ waiting
      → pop q0 buff (ws ++ woken (conditioned q (retest q.condition)) ∷ []) ≡ waiting
      → Step q [] [] (conditioned q (block (retest q.condition)))
  -- a `pop` whose wait fails
  gives_up :
      (q0 : Queue) (ws : List Wakeup) (buff b : Bytes) (n : ℤ) (r : Queue)
      → 0 < q.condition.blocked
      → pop q0 buff ws ≡ waiting
      → pop q0 buff (ws ++ failed (conditioned q (unblock q.condition)) ∷ []) ≡ returned n b r
      → Step q [] (packet_of n b) r
  -- `send_signal_queue`, and a wake-up that nobody sent
  signals : Step q [] [] (send_signal_queue q)
  wakes : 0 < q.condition.blocked → Step q [] [] (conditioned q (signal q.condition))

-- Steps in a row, with all packets that they put and all that they took, in order.
pub data Reach (q : Queue) : List Bytes → List Bytes → Queue → Type 0 where
  here : Reach q [] [] q
  after :
      {put taken put1 taken1 : List Bytes} {r s : Queue}
      → Reach q put taken r
      → Step r put1 taken1 s
      → Reach q (put ++ put1) (taken ++ taken1) s
