-- ===== src/Pattern.antt =====
-- pipeline_patterns/patterns.c: `vlan_tagger_pattern`, the pipeline that main.c builds, and
-- `detailed_logging_pattern`.
pub mod Topology
use vlan_tagger.Prelude.{ℕ, ◌+◌, List, [], ◌∷◌, ◌++◌, Option, none, some, ℤ, pos, length}
use vlan_tagger.Frame.{◌>>=◌}
use vlan_tagger.Queue.{Queue}
use vlan_tagger.Node.{Node}
use vlan_tagger.Pipeline.{Heap, pipeline_add_node, pipeline_connect, pipeline_connect_shared}

-- The calls of `vlan_tagger_pattern` on its five nodes; it tests no result.
unfoldable pub vlan_tagger_wiring : Queue → ℕ → ℕ → ℕ → ℕ → ℕ → Heap → Heap
vlan_tagger_wiring memory sniffer tagger1 tagger2 counter sender h =
    let h1 = (pipeline_add_node (some sniffer) h).1 in
    let h2 = (pipeline_add_node (some tagger1) h1).1 in
    let h3 = (pipeline_add_node (some tagger2) h2).1 in
    let h4 = (pipeline_add_node (some counter) h3).1 in
    let h5 = (pipeline_add_node (some sender) h4).1 in
    let h6 =
      (pipeline_connect_shared memory (some sniffer) (some tagger1 ∷ some tagger2 ∷ []) h5).1 in
    let h7 = (pipeline_connect memory (some tagger1) (some counter) h6).1 in
    let h8 = (pipeline_connect memory (some tagger2) (some counter) h7).1 in
    (pipeline_connect memory (some counter) (some sender) h8).1

-- `vlan_tagger_pattern`, given what the five `..._node_create` calls return; where one is NULL, those
-- that were made are destroyed.
unfoldable pub vlan_tagger_pattern :
    Queue → Option Node → Option Node → Option Node → Option Node → Option Node → Heap → ℤ × Heap
vlan_tagger_pattern memory sniffer tagger1 tagger2 counter sender h =
    let made = do
      a ← sniffer
      b ← tagger1
      c ← tagger2
      d ← counter
      e ← sender
      some (a ∷ b ∷ c ∷ d ∷ e ∷ [])
    in elim made [
      | none ↦ (pos 1, h)
      | some five ↦
          let n = length h.nodes in
          (
            pos 0,
            vlan_tagger_wiring memory n (n + 1) (n + 2) (n + 3) (n + 4)
                (record h { nodes = h.nodes ++ five }),
          )
    ]

-- The calls of `detailed_logging_pattern` on its eight nodes.
unfoldable pub detailed_logging_wiring : Queue → ℕ → ℕ → ℕ → ℕ → ℕ → ℕ → ℕ → ℕ → Heap → Heap
detailed_logging_wiring memory sniffer tagger1 tagger2 collector logger1 logger2 counter sender h =
    let h1 = (pipeline_add_node (some sniffer) h).1 in
    let h2 = (pipeline_add_node (some tagger1) h1).1 in
    let h3 = (pipeline_add_node (some tagger2) h2).1 in
    let h4 = (pipeline_add_node (some collector) h3).1 in
    let h5 = (pipeline_add_node (some logger1) h4).1 in
    let h6 = (pipeline_add_node (some logger2) h5).1 in
    let h7 = (pipeline_add_node (some counter) h6).1 in
    let h8 = (pipeline_add_node (some sender) h7).1 in
    let h9 =
      (pipeline_connect_shared memory (some sniffer) (some tagger1 ∷ some tagger2 ∷ []) h8).1 in
    let h10 = (pipeline_connect memory (some sniffer) (some logger1) h9).1 in
    let h11 = (pipeline_connect memory (some tagger1) (some collector) h10).1 in
    let h12 = (pipeline_connect memory (some tagger2) (some collector) h11).1 in
    let h13 = (pipeline_connect memory (some collector) (some sender) h12).1 in
    let h14 = (pipeline_connect memory (some collector) (some logger2) h13).1 in
    (pipeline_connect memory (some collector) (some counter) h14).1

-- `detailed_logging_pattern`, given what the eight `..._node_create` calls return.
unfoldable pub detailed_logging_pattern :
    Queue
    → Option Node
    → Option Node
    → Option Node
    → Option Node
    → Option Node
    → Option Node
    → Option Node
    → Option Node
    → Heap
    → ℤ × Heap
detailed_logging_pattern memory sniffer tagger1 tagger2 collector logger1 logger2 counter sender h =
    let made = do
      a ← sniffer
      b ← tagger1
      c ← tagger2
      d ← collector
      e ← logger1
      f ← logger2
      g ← counter
      k ← sender
      some (a ∷ b ∷ c ∷ d ∷ e ∷ f ∷ g ∷ k ∷ [])
    in elim made [
      | none ↦ (pos 1, h)
      | some eight ↦
          let n = length h.nodes in
          (
            pos 0,
            detailed_logging_wiring memory n (n + 1) (n + 2) (n + 3) (n + 4) (n + 5) (n + 6) (n + 7)
                (record h { nodes = h.nodes ++ eight }),
          )
    ]
