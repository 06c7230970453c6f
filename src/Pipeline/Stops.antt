-- ===== src/Pipeline/Stops.antt =====
-- pipeline/pipeline.c and queue/queue.c: what the signals of `pipeline_stop` do to a node that waits.
use vlan_tagger.Prelude.{
  ℕ, zero, suc, ◌≡◌, refl, true, List, [], ◌∷◌, some, Bytes, get_elem?, replicate,
}
use vlan_tagger.Queue.{Queue, woken, waiting, pop, send_signal_queue}
use vlan_tagger.Queue.Holds.{Holds, is_empty-nil}
use vlan_tagger.Queue.Waits.{send_signal_queue-Holds, pop-replicate}
use vlan_tagger.Node.{update}
use vlan_tagger.Pipeline.{Heap, signal_all, pipeline_stop}

-- The queue at a place is there, and is empty.
EmptyAt : List Queue → ℕ → Type 0
EmptyAt queues i = (q : Queue) × (get_elem? queues i ≡ some q) × Holds q []

update-EmptyAt :
    (queues : List Queue) (j i : ℕ)
    → EmptyAt queues i
    → EmptyAt (update queues j send_signal_queue) i
unfolding EmptyAt
update-EmptyAt [] j i e = e
update-EmptyAt (x ∷ queues) zero zero (q, e, v) = (
  send_signal_queue x,
  refl,
  send_signal_queue-Holds x [] (let same : q ≡ x = cc in rw (← same) v),
)
update-EmptyAt (x ∷ queues) zero (suc i) e = e
update-EmptyAt (x ∷ queues) (suc j) zero e = e
update-EmptyAt (x ∷ queues) (suc j) (suc i) e = update-EmptyAt queues j i e

signal_all-EmptyAt :
    (qs : List ℕ) (queues : List Queue) (i : ℕ)
    → EmptyAt queues i
    → EmptyAt (signal_all qs queues) i
signal_all-EmptyAt [] queues i e = e
signal_all-EmptyAt (j ∷ qs) queues i e =
    signal_all-EmptyAt qs (update queues j send_signal_queue) i (update-EmptyAt queues j i e)

-- A node that waits in `pop` on an empty queue waits on when the pipeline is stopped: `pipeline_stop`
-- sets the flag, but leaves that queue empty, and as often as its signals, or others, wake the call up
-- then, it goes back to its wait.
pub pipeline_stop-waiting :
    (h : Heap) (i : ℕ) (q : Queue) (buff : Bytes)
    → get_elem? h.queues i ≡ some q
    → Holds q []
    → let stopped = pipeline_stop h in
      (stopped.pipeline.should_exit ≡ true)
      × ((q' : Queue) × (get_elem? stopped.queues i ≡ some q')
          × ((k : ℕ) → pop q buff (replicate k (woken q')) ≡ waiting))
unfolding pipeline_stop EmptyAt
pipeline_stop-waiting h i q buff e v =
    let (q', there, empty) = signal_all-EmptyAt h.pipeline.queues h.queues i (q, e, v) in
    (refl, (q', there, λ k. pop-replicate k q q' buff (is_empty-nil q v) (is_empty-nil q' empty)))
