-- ===== src/Pipeline/Shared.antt =====
-- pipeline/pipeline.c: `pipeline_connect_shared` keeps the pipeline well wired.
use vlan_tagger.Prelude.{
  ℕ, zero, suc, ◌≡◌, true, false, Bool, not, if◌then◌else◌, List, [], ◌∷◌, ◌++◌, Option, none, some,
  inl, inr, arith, All-append, Option-cases, length, get_elem?, ℤ, pos, negsuc, minus_one, Bytes,
}
use vlan_tagger.Queue.{Queue, q_size}
use vlan_tagger.Node.{Node, node_create}
use vlan_tagger.Dispatcher.{DispatcherContext, round_robin, dispatcher_node_create}
use vlan_tagger.Pipeline.Wired.{Sound, IsWired}
use vlan_tagger.Pipeline.{
  Heap, take_fate, next_fate, pipeline_add_node, pipeline_connect, connect_all, dispatcher_name,
  new_dispatcher, connect_dispatcher, pipeline_connect_shared,
}
use vlan_tagger.Pipeline.Connect.{pipeline_add_node-IsWired, pipeline_connect-IsWired}

-- A made dispatcher has no queue yet.
abbrev NewNode : ℕ → Option (Node × DispatcherContext) → Type 0
NewNode n none = Unit
NewNode n (some (node, ctx)) = Sound n node

dispatcher_node_create-NewNode :
    (n : ℕ) (ctx_made node_made outputs_made : Bool) (name : Bytes)
    → NewNode n (dispatcher_node_create ctx_made node_made outputs_made (some name) round_robin)
unfolding dispatcher_node_create node_create
dispatcher_node_create-NewNode n false b c name = tt
dispatcher_node_create-NewNode n true false c name = tt
dispatcher_node_create-NewNode n true true false name = tt
dispatcher_node_create-NewNode n true true true name = record {
  few = omega arith;
  outputs = tt;
  input = tt;
}

fate-IsWired : (fates : List Bool) (h : Heap) → IsWired h → IsWired (take_fate fates h).1
fate-IsWired [] h w = w
fate-IsWired (b ∷ bs) h w = w

one_of_three :
    (a b : Bool) (h1 h2 h3 : Heap)
    → IsWired h1
    → IsWired h2
    → IsWired h3
    → IsWired (if not a then h1 else if not b then h2 else h3)
one_of_three false b h1 h2 h3 w1 w2 w3 = w1
one_of_three true false h1 h2 h3 w1 w2 w3 = w2
one_of_three true true h1 h2 h3 w1 w2 w3 = w3

new_dispatcher-IsWired : (name : Bytes) (h : Heap) → IsWired h → IsWired (new_dispatcher name h).1
new_dispatcher-IsWired name h w =
    let h1 = (next_fate h).1 in
    let h2 = (next_fate h1).1 in
    let w1 = fate-IsWired h.fates h w in
    let w2 = fate-IsWired h1.fates h1 w1 in
    one_of_three (next_fate h).0 (next_fate h1).0 h1 h2 (next_fate h2).1 w1 w2
      (fate-IsWired h2.fates h2 w2)

add-IsWired :
    (node : Node) (h : Heap)
    → Sound (length h.queues) node
    → IsWired h
    → IsWired (record h { nodes = h.nodes ++ node ∷ [] })
add-IsWired node h s w = record {
  few_nodes = w.few_nodes;
  few_queues = w.few_queues;
  known = w.known;
  sound = All-append (Sound (length h.queues)) h.nodes (node ∷ []) w.sound (s, tt);
  rings = w.rings;
}

module _ (memory : Queue) (slots : length memory.slots ≡ q_size) where
  after_connect :
      (r : ℤ) (h k : Heap)
      → (z : ℤ) → IsWired h
      → IsWired k
      → let result : ℤ × Heap = elim r [ pos zero ↦ (z, k) | _ ↦ (minus_one, h) ] in
        IsWired result.1
  after_connect (pos zero) h k z w v = v
  after_connect (pos (suc n)) h k z w v = w
  after_connect (negsuc n) h k z w v = w

  connect_all-IsWired :
      (dispatcher : ℕ) (to_nodes : List (Option ℕ)) (h : Heap)
      → IsWired h
      → IsWired (connect_all memory dispatcher to_nodes h).1
  unfolding connect_all
  connect_all-IsWired dispatcher [] h w = w
  connect_all-IsWired dispatcher (none ∷ to_nodes) h w = connect_all-IsWired dispatcher to_nodes h w
  connect_all-IsWired dispatcher (some to ∷ to_nodes) h w =
      let r = pipeline_connect memory (some dispatcher) (some to) h in
      let v = pipeline_connect-IsWired memory slots (some dispatcher) (some to) h w in
      let rest = connect_all memory dispatcher to_nodes r.1 in
      after_connect r.0 r.1 rest.1 rest.0 v (connect_all-IsWired dispatcher to_nodes r.1 v)

  -- From the new dispatcher on.
  connect_dispatcher-IsWired :
      (from dispatcher : ℕ) (to_nodes : List (Option ℕ)) (h : Heap)
      → IsWired h
      → IsWired (connect_dispatcher memory from dispatcher to_nodes h).1
  unfolding connect_dispatcher
  connect_dispatcher-IsWired from dispatcher to_nodes h w =
      let added = pipeline_add_node (some dispatcher) h in
      let w1 = pipeline_add_node-IsWired (some dispatcher) h w in
      let r = pipeline_connect memory (some from) (some dispatcher) added.1 in
      let w2 = pipeline_connect-IsWired memory slots (some from) (some dispatcher) added.1 w1 in
      let rest = connect_all memory dispatcher to_nodes r.1 in
      let w3 = connect_all-IsWired dispatcher to_nodes r.1 w2 in
      let second : ℤ × Heap = elim r.0 [ pos zero ↦ rest | _ ↦ (minus_one, r.1) ] in
      after_connect added.0 added.1 second.1 second.0 w1 (after_connect r.0 r.1 rest.1 rest.0 w2 w3)

  with_dispatcher :
      (from : ℕ) (to_nodes : List (Option ℕ)) (made : Option (Node × DispatcherContext)) (h : Heap)
      → NewNode (length h.queues) made
      → IsWired h
      → let result : ℤ × Heap = elim made [
        | none ↦ (minus_one, h)
        | some (dispatcher, ctx) ↦
            connect_dispatcher memory from
              (length h.nodes)
              to_nodes
              (record h { nodes = h.nodes ++ dispatcher ∷ [] })
      ] in
        IsWired result.1
  with_dispatcher from to_nodes none h s w = w
  with_dispatcher from to_nodes (some (d, ctx)) h s w =
      connect_dispatcher-IsWired from (length h.nodes) to_nodes
        (record h { nodes = h.nodes ++ d ∷ [] }) (add-IsWired d h s w)

  -- Where new memory has the 1000 slots of a queue, `pipeline_connect_shared` keeps a pipeline
  -- well wired too, on every branch: its dispatcher, its new queues and its edges stay within the
  -- arrays, and each queue pointer leads to a valid queue.
  pub pipeline_connect_shared-IsWired :
      (from : Option ℕ) (to_nodes : List (Option ℕ)) (h : Heap)
      → IsWired h
      → IsWired (pipeline_connect_shared memory from to_nodes h).1
  unfolding pipeline_connect_shared
  pipeline_connect_shared-IsWired none to_nodes h w = w
  pipeline_connect_shared-IsWired (some from) [] h w = w
  pipeline_connect_shared-IsWired (some from) (to ∷ to_nodes) h w =
      elim (Option-cases (get_elem? h.nodes from)) [
        | inl e ↦ rw (pipeline_connect_shared, e) w
        | inr (source, e) ↦
            let h1 = (next_fate h).1 in
            let h2 = (next_fate h1).1 in
            let r = new_dispatcher (dispatcher_name source.name) h in
            rw (pipeline_connect_shared, e)
              (with_dispatcher from (to ∷ to_nodes) r.0 r.1
                (dispatcher_node_create-NewNode (length r.1.queues) (next_fate h).0 (next_fate h1).0
                  (next_fate h2).0 (dispatcher_name source.name))
                (new_dispatcher-IsWired (dispatcher_name source.name) h w))
      ]
