-- ===== src/Pipeline/Edges.antt =====
-- pipeline/pipeline.c: what node.c's two functions leave in a well wired pipeline.
use vlan_tagger.Prelude.{
  ℕ, ◌<◌, ◌≡◌, refl, [], ◌∷◌, Option, none, some, inl, inr, arith, All-append, All-get_elem?,
  Bool-cases, Option-cases, leb, length, length-append, get_elem?, ℤ,
}
use vlan_tagger.Queue.{Queue}
use vlan_tagger.Node.{Node, max_node_outputs, node_add_output, node_set_input}
use vlan_tagger.Pipeline.{Heap, put_node}
use vlan_tagger.Pipeline.Wired.{Sound, IsWired, Made, All-update}

-- The node at a place, changed by one of the two functions of node.c.
abbrev SoundResult : ℕ → ℤ × Option Node → Type 0
SoundResult n (r, none) = Unit
SoundResult n (r, some node) = Sound n node

pub put_node-IsWired :
    (i : ℕ) (r : ℤ × Option Node) (h : Heap)
    → SoundResult (length h.queues) r
    → IsWired h
    → IsWired (put_node i r h).1
put_node-IsWired i (r, none) h s w = w
put_node-IsWired i (r, some node) h s w = record {
  few_nodes = w.few_nodes;
  few_queues = w.few_queues;
  known = w.known;
  sound = All-update (Sound (length h.queues)) h.nodes i (λ n. node) (λ n k. s) w.sound;
  rings = w.rings;
}

put_node-queues : (i : ℕ) (r : ℤ × Option Node) (h : Heap) → (put_node i r h).1.queues ≡ h.queues
put_node-queues i (r, none) h = refl
put_node-queues i (r, some node) h = refl

node_add_output-Sound :
    (n q : ℕ) (node : Node)
    → Sound n node
    → q < n
    → SoundResult n (node_add_output (some node) (some q))
unfolding node_add_output
node_add_output-Sound n q node s lt =
    elim (Bool-cases (leb max_node_outputs (length node.output_queues))) [
      | inl full ↦ rw full s
      | inr room ↦ rw room (record {
        few = ground (arith, length-append node.output_queues (q ∷ []));
        outputs = All-append (λ o. o < n) node.output_queues (q ∷ []) s.outputs (lt, tt);
        input = s.input;
      })
    ]

pub add_output-Sound :
    (h : Heap) (from q : ℕ)
    → IsWired h
    → q < length h.queues
    → SoundResult (length h.queues) (node_add_output (get_elem? h.nodes from) (some q))
add_output-Sound h from q w lt = elim (Option-cases (get_elem? h.nodes from)) [
  | inl e ↦ rw e (unfold node_add_output in tt)
  | inr (node, e) ↦ rw e (
      node_add_output-Sound (length h.queues) q node
        (All-get_elem? (Sound (length h.queues)) h.nodes from w.sound e) lt)
]

set_input-Sound :
    (h : Heap) (to q : ℕ)
    → IsWired h
    → q < length h.queues
    → SoundResult (length h.queues) (node_set_input (get_elem? h.nodes to) (some q))
unfolding node_set_input
set_input-Sound h to q w lt = elim (Option-cases (get_elem? h.nodes to)) [
  | inl e ↦ rw e tt
  | inr (node, e) ↦
      let s = All-get_elem? (Sound (length h.queues)) h.nodes to w.sound e in
      rw e (record { few = s.few; outputs = s.outputs; input = lt })
]

-- The queue for a target is one of the queues.
pub given_queue :
    (memory : Queue) (to : ℕ) (h : Heap) (r : Option ℕ × Heap)
    → Made (length h.queues) r
    → Made (length h.queues) (
      r.0,
      elim r.0 [
        | none ↦ r.1
        | some q ↦ (put_node to (node_set_input (get_elem? r.1.nodes to) (some q)) r.1).1
      ],
    )
given_queue memory to h (none, k) m = m
given_queue memory to h (some q, k) m =
    let result = node_set_input (get_elem? k.nodes to) (some q) in
    let same : (put_node to result k).1.queues ≡ k.queues = put_node-queues to result k in
    record {
      wired = put_node-IsWired to result k (set_input-Sound k to q m.wired m.pointer) m.wired;
      more = rw same m.more;
      pointer = rw same m.pointer;
    }
