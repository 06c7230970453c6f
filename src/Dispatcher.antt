-- ===== src/Dispatcher.antt =====
-- nodes/include/dispatcher_node.h and nodes/src/dispatcher_node.c: each packet goes to one of the
-- outputs.
pub mod Turns
mod Tests
use vlan_tagger.Prelude.{
  not, ℕ, zero, suc, ◌+◌, ◌%◌, ◌^◌, Bool, true, false, List, [], ◌∷◌, Option, none, some, ◌==◌,
  if◌then◌else◌, ℤ, pos, negsuc, Bytes, length, get_elem?,
}
use vlan_tagger.Queue.{Queue, push}
use vlan_tagger.Frame.{◌>>=◌}
use vlan_tagger.Node.{
  Node, custom, dispatcher_process, node_create, update, Round, process_loop, with_input,
}

-- `DispatchStrategy`
pub data DispatchStrategy : Type 0 where
  round_robin : DispatchStrategy
  random : DispatchStrategy

-- `DispatcherContext`: an `unsigned int` and an `unsigned long`.
pub record DispatcherContext : Type 0 where
  pub strategy : DispatchStrategy
  pub next_index : ℕ
  pub packets_sent : ℕ

-- `dispatcher_node_create`: the node and its context; each of the three allocations may fail.
unfoldable pub dispatcher_node_create :
    Bool → Bool → Bool → Option Bytes → DispatchStrategy → Option (Node × DispatcherContext)
dispatcher_node_create ctx_made node_made outputs_made none strategy = none
dispatcher_node_create ctx_made node_made outputs_made (some name) strategy =
    if not ctx_made then none else (do
      node ← node_create node_made outputs_made (some name) custom (some dispatcher_process)
      some (node, record { strategy = strategy; next_index = 0; packets_sent = 0 }))

-- `target_index`, with `next_index` behind it; `rand` has the results of the coming calls of `rand()`.
unfoldable pub choose : DispatcherContext → ℕ → (ℕ → ℕ) → ℕ × DispatcherContext × (ℕ → ℕ)
choose ctx output_count rand = elim ctx.strategy [
  | round_robin ↦ (
    ctx.next_index % output_count,
    record ctx { next_index = ((ctx.next_index + 1) % 2 ^ 32) % output_count },
    rand,
  )
  | random ↦ (rand 0 % output_count, ctx, λ k. rand (suc k))
]

-- The two integers that C compares behind a `push`.
abbrev pub is_pos : ℤ → ℕ → Bool
is_pos (pos m) n = m == n
is_pos (negsuc m) n = false

-- The push into the chosen queue; `packets_sent` counts those that succeed.
unfoldable pub dispatch_to :
    DispatcherContext → Option ℕ → List Queue → Bytes → ℕ → DispatcherContext × List Queue
dispatch_to ctx none queues buffer packet_size = (ctx, queues)
dispatch_to ctx (some o) queues buffer packet_size = elim (get_elem? queues o) [
  | none ↦ (ctx, queues)
  | some q ↦ (
    (if is_pos (push q buffer packet_size).0 packet_size
        then record ctx { packets_sent = (ctx.packets_sent + 1) % 2 ^ 64 }
        else ctx),
    update queues o (λ r. (push r buffer packet_size).1),
  )
]

-- The body of the loop behind `pop`.
unfoldable pub dispatch :
    Node
    → DispatcherContext × (ℕ → ℕ)
    → List Queue
    → Bytes
    → ℕ
    → (DispatcherContext × (ℕ → ℕ)) × List Queue
dispatch node (ctx, rand) queues buffer packet_size =
    let (target_index, ctx', rand') = choose ctx (length node.output_queues) rand in
    let (ctx_end, queues') =
      dispatch_to ctx' (get_elem? node.output_queues target_index) queues buffer packet_size in
    ((ctx_end, rand'), queues')

-- `dispatcher_node_process`; without outputs it leaves its loop at once.
unfoldable pub dispatcher_node_process :
    Node
    → DispatcherContext
    → (ℕ → ℕ)
    → List Round
    → (DispatcherContext × (ℕ → ℕ)) × List (List Queue)
dispatcher_node_process node ctx rand rounds =
    let run = process_loop (dispatch node) (ctx, rand) rounds in
    if length node.output_queues == 0 then ((ctx, rand), []) else with_input node (ctx, rand) run
