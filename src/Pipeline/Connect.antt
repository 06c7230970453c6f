-- ===== src/Pipeline/Connect.antt =====
-- pipeline/pipeline.c and pipeline_patterns/patterns.c: connecting nodes keeps the pipeline well
-- wired, whichever allocations fail.
use vlan_tagger.Prelude.{
  ℕ, ◌≡◌, true, [], ◌∷◌, Option, none, some, inl, inr, arith, All-get_elem?, Bool-cases,
  Option-cases, leb, length, length-append, get_elem?, ℤ, minus_one,
}
use vlan_tagger.Queue.{Queue, q_size}
use vlan_tagger.Frame.{◌>>=◌}
use vlan_tagger.Node.{Node, node_add_output}
use vlan_tagger.Pipeline.Edges.{given_queue, put_node-IsWired, add_output-Sound}
use vlan_tagger.Pipeline.Wired.{Sound, IsWired, Made, All-update, pipeline_create_queue-Made}
use vlan_tagger.Pipeline.{
  Heap, max_pipeline_nodes, pipeline_add_node, pipeline_create_queue, put_node, target_queue,
  pipeline_connect,
}

-- Adding a node keeps a pipeline well wired: one that is full stays as it is.
pub pipeline_add_node-IsWired :
    (node : Option ℕ) (h : Heap) → IsWired h → IsWired (pipeline_add_node node h).1
unfolding pipeline_add_node
pipeline_add_node-IsWired none h w = w
pipeline_add_node-IsWired (some i) h w =
    elim (Bool-cases (leb max_pipeline_nodes (length h.pipeline.nodes))) [
      | inl full ↦ rw full w
      | inr room ↦ rw room (record {
        few_nodes = ground (arith, length-append h.pipeline.nodes (i ∷ []));
        few_queues = w.few_queues;
        known = w.known;
        sound =
            All-update (Sound (length h.queues)) h.nodes i (λ n. record n { should_exit = true })
              (λ n s. record { few = s.few; outputs = s.outputs; input = s.input }) w.sound;
        rings = w.rings;
      })
    ]

module _ (memory : Queue) (slots : length memory.slots ≡ q_size) where
  new_target :
      (to : ℕ) (h : Heap)
      → IsWired h
      → (get_elem? h.nodes to >>= (λ n. n.input_queue)) ≡ none
      → Made (length h.queues) (target_queue memory to h)
  unfolding target_queue
  new_target to h w e =
      rw (target_queue, e)
        (given_queue memory to h (pipeline_create_queue memory h)
          (pipeline_create_queue-Made memory h slots w))

  old_target :
      (to q : ℕ) (node : Node) (h : Heap)
      → IsWired h
      → get_elem? h.nodes to ≡ some node
      → node.input_queue ≡ some q
      → Made (length h.queues) (target_queue memory to h)
  unfolding target_queue
  old_target to q node h w e input =
      let s = All-get_elem? (Sound (length h.queues)) h.nodes to w.sound e in
      rw (target_queue, e, input)
        (record { wired = w; more = omega arith; pointer = rw input at s.input })

  target_queue-Made :
      (to : ℕ) (h : Heap) → IsWired h → Made (length h.queues) (target_queue memory to h)
  target_queue-Made to h w = elim (Option-cases (get_elem? h.nodes to)) [
    | inl e ↦ new_target to h w (rw e)
    | inr (node, e) ↦ elim (Option-cases node.input_queue) [
      | inl no_input ↦ new_target to h w (rw (e, no_input))
      | inr (q, input) ↦ old_target to q node h w e input
    ]
  ]

  -- The edge to a target's queue.
  put_edge :
      (from n : ℕ) (r : Option ℕ × Heap)
      → Made n r
      → let result : ℤ × Heap = elim r.0 [
        | none ↦ (minus_one, r.1)
        | some q ↦ put_node from (node_add_output (get_elem? r.1.nodes from) (some q)) r.1
      ] in
        IsWired result.1
  put_edge from n (none, k) m = m.wired
  put_edge from n (some q, k) m =
      put_node-IsWired from (node_add_output (get_elem? k.nodes from) (some q)) k
        (add_output-Sound k from q m.wired m.pointer) m.wired

  -- Where new memory has the 1000 slots of a queue, `pipeline_connect` keeps a pipeline well
  -- wired, on every branch: no array grows beyond its size, and each queue pointer leads to a
  -- valid queue.
  pub pipeline_connect-IsWired :
      (from to : Option ℕ) (h : Heap) → IsWired h → IsWired (pipeline_connect memory from to h).1
  unfolding pipeline_connect
  pipeline_connect-IsWired none to h w = w
  pipeline_connect-IsWired (some from) none h w = w
  pipeline_connect-IsWired (some from) (some to) h w =
      put_edge from (length h.queues) (target_queue memory to h) (target_queue-Made to h w)
