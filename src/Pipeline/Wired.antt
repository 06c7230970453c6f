-- ===== src/Pipeline/Wired.antt =====
-- pipeline/pipeline.c: the bounds of the arrays, and queue pointers that lead to valid queues.
use vlan_tagger.Prelude.{
  ap, subst, not, if◌then◌else◌, ℕ, zero, suc, ◌≤◌, ◌<◌, ◌≡◌, refl, true, false, Bool, List, [],
  ◌∷◌, ◌++◌, Option, none, some, inl, inr, arith, All, All-append, Bool-cases, leb, length,
  length-append,
}
use vlan_tagger.Queue.{Queue, q_size, init}
use vlan_tagger.Queue.Fifo.{Fifo}
use vlan_tagger.Queue.Holds.{Holds, init-Holds}
use vlan_tagger.Node.{Node, max_node_outputs, update}
use vlan_tagger.Pipeline.{
  Pipeline, Heap, max_pipeline_nodes, max_pipeline_queues, take_fate, next_fate, place_queue,
  pipeline_create_queue,
}

-- One of the first `n` queues, or NULL.
abbrev pub Known : ℕ → Option ℕ → Type 0
Known n none = Unit
Known n (some q) = q < n

-- At most sixteen outputs, and no pointer but to one of the first `n` queues.
pub record Sound (n : ℕ) (node : Node) : Type 0 where
  pub few : length node.output_queues ≤ max_node_outputs
  pub outputs : All (λ q. q < n) node.output_queues
  pub input : Known n node.input_queue

abbrev pub Ring : Queue → Type 0
Ring q = (ps : Fifo) × Holds q ps

-- Neither array is overfull, every pointer to a queue leads to one, and every queue is valid.
pub record Wired (nodes : List Node) (queues : List Queue) (pipeline : Pipeline) : Type 0 where
  pub few_nodes : length pipeline.nodes ≤ max_pipeline_nodes
  pub few_queues : length pipeline.queues ≤ max_pipeline_queues
  pub known : All (λ q. q < length queues) pipeline.queues
  pub sound : All (Sound (length queues)) nodes
  pub rings : All Ring queues

abbrev pub IsWired : Heap → Type 0
IsWired h = Wired h.nodes h.queues h.pipeline

-- What a function that may make a queue leaves behind: a sound heap with at least the queues that
-- there were, and a pointer to one of its queues.
pub record Made (n : ℕ) (r : Option ℕ × Heap) : Type 0 where
  pub wired : IsWired r.1
  pub more : n ≤ length r.1.queues
  pub pointer : Known (length r.1.queues) r.0

All-mono {ℓ κ} :
    {A : Type ℓ} {P Q : A → Type κ} (xs : List A) → ((x : A) → P x → Q x) → All P xs → All Q xs
All-mono [] f h = tt
All-mono (x ∷ xs) f h = (f x h.0, All-mono xs f h.1)

pub All-update {ℓ κ} :
    {A : Type ℓ} (P : A → Type κ) (xs : List A) (i : ℕ) (f : A → A)
    → ((x : A) → P x → P (f x))
    → All P xs
    → All P (update xs i f)
All-update P [] i f g h = tt
All-update P (x ∷ xs) zero f g h = (g x h.0, h.1)
All-update P (x ∷ xs) (suc i) f g h = (h.0, All-update P xs i f g h.1)

Sound-mono : (m n : ℕ) → m ≤ n → (node : Node) → Sound m node → Sound n node
Sound-mono m n le node s = record {
  few = s.few;
  outputs = All-mono node.output_queues (λ q lt. omega arith) s.outputs;
  input = Known-mono node.input_queue s.input;
}
  where
    Known-mono : (o : Option ℕ) → Known m o → Known n o
    Known-mono none k = tt
    Known-mono (some q) k = omega arith

-- Calls that make nothing leave a sound heap as it was, but for `fates`.
abbrev Same : Heap → Heap → Type 0
Same h k = IsWired k × (k.queues ≡ h.queues) × (k.pipeline ≡ h.pipeline)

take_fate-Same : (fates : List Bool) (h k : Heap) → Same h k → Same h (take_fate fates k).1
take_fate-Same [] h k w = w
take_fate-Same (b ∷ bs) h k w = w

no_queue : (h k : Heap) → Same h k → Made (length h.queues) (none, k)
no_queue h k w = record { wired = w.0; more = rw w.1 (omega arith); pointer = tt }

-- `init` of a new queue, however it ends.
place_queue-Made :
    (mutex_made cond_made : Bool) (memory : Queue) (h : Heap)
    → length memory.slots ≡ q_size
    → length h.pipeline.queues < max_pipeline_queues
    → IsWired h
    → Made (length h.queues) (place_queue (init mutex_made cond_made memory) h)
unfolding init
place_queue-Made false c memory h slots room w = record {
  wired = w;
  more = omega arith;
  pointer = tt;
}
place_queue-Made true false memory h slots room w = record {
  wired = w;
  more = omega arith;
  pointer = tt;
}
place_queue-Made true true memory h slots room w =
    let fresh : Queue = (init true true memory).1 in
    let longer = length-append h.queues (fresh ∷ []) in
    let n : ℕ = length h.queues in
    let grown : n ≤ length (h.queues ++ fresh ∷ []) = omega (arith, longer) in
    record {
      wired = record {
        few_nodes = w.few_nodes;
        few_queues = omega (arith, length-append h.pipeline.queues (n ∷ []));
        known =
            All-append (λ q. q < length (h.queues ++ fresh ∷ [])) h.pipeline.queues (n ∷ [])
              (All-mono h.pipeline.queues (λ q lt. omega arith) w.known)
              (omega (arith, longer), tt);
        sound = All-mono h.nodes (Sound-mono n _ grown) w.sound;
        rings =
            All-append Ring h.queues (fresh ∷ []) w.rings (([], (init-Holds memory slots).1), tt);
      };
      more = grown;
      pointer = omega (arith, longer);
    }

-- The three calls, however each ends.
create_queue-stages :
    (memory : Queue) (h h1 h2 h3 : Heap)
    → length memory.slots ≡ q_size
    → length h.pipeline.queues < max_pipeline_queues
    → Same h h1
    → Same h h2
    → Same h h3
    → (queue_made mutex_made cond_made : Bool)
    → Made (length h.queues) (
        if not queue_made
        then (none, h1)
        else if not mutex_made
        then (none, h2)
        else place_queue (init mutex_made cond_made memory) h3)
create_queue-stages memory h h1 h2 h3 slots room w1 w2 w3 false m c = no_queue h h1 w1
create_queue-stages memory h h1 h2 h3 slots room w1 w2 w3 true false c = no_queue h h2 w2
create_queue-stages memory h h1 h2 h3 slots room w1 w2 w3 true true c =
    subst (λ n. Made n (place_queue (init true c memory) h3)) (ap length w3.1)
      (place_queue-Made true c memory h3 slots (rw w3.2 room) w3.0)

-- A new queue leaves the pipeline well wired, or there is none.
pub pipeline_create_queue-Made :
    (memory : Queue) (h : Heap)
    → length memory.slots ≡ q_size
    → IsWired h
    → Made (length h.queues) (pipeline_create_queue memory h)
unfolding pipeline_create_queue
pipeline_create_queue-Made memory h slots w =
    let h1 : Heap = (next_fate h).1 in
    let h2 : Heap = (next_fate h1).1 in
    let h3 : Heap = (next_fate h2).1 in
    let same1 = take_fate-Same h.fates h h (w, refl, refl) in
    let same2 = take_fate-Same h1.fates h h1 same1 in
    let same3 = take_fate-Same h2.fates h h2 same2 in
    elim (Bool-cases (leb max_pipeline_queues (length h.pipeline.queues))) [
      | inl full ↦ rw full (no_queue h h (w, refl, refl))
      | inr room ↦ rw room (
          create_queue-stages memory h h1 h2 h3 slots (ground arith) same1 same2 same3
            (next_fate h).0 (next_fate h1).0 (next_fate h2).0)
    ]
