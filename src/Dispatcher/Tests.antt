-- ===== src/Dispatcher/Tests.antt =====
-- The theorems on the dispatcher at concrete inputs.
use vlan_tagger.Prelude.{
  ◌≡◌, refl, true, false, List, [], ◌∷◌, some, arith, Bytes, ℤ, pos, get_elem?,
}
use vlan_tagger.Node.{Node, custom, dispatcher_process, Round}
use vlan_tagger.Node.Rounds.{accepted}
use vlan_tagger.Dispatcher.Turns.{given, dispatcher_node_process-turns}
use vlan_tagger.Dispatcher.{DispatcherContext, round_robin, dispatcher_node_process}

abbrev node : Node
node = record {
  name = 68 ∷ [];
  node_type = custom;
  input_queue = some 0;
  output_queues = 1 ∷ 2 ∷ [];
  process = dispatcher_process;
  should_exit = true;
}

abbrev ctx : DispatcherContext
ctx = record { strategy = round_robin; next_index = 1; packets_sent = 0 }

abbrev round : ℤ → Bytes → Round
round size buffer = record { stop = false; packet_size = size; buffer = buffer; queues = [] }

abbrev rounds : List Round
rounds = round (pos 1) (10 ∷ []) ∷ round (pos 0) (10 ∷ []) ∷ round (pos 1) (20 ∷ []) ∷ []

-- The first packet goes to output 1, queue 2, and the second to output 0, queue 1.
dispatcher_node_process-turns_example :
    get_elem? (dispatcher_node_process node ctx (λ k. 0) rounds).1 1
    ≡ some (given (round (pos 1) (20 ∷ [])) 1)
unfolding accepted
dispatcher_node_process-turns_example =
    dispatcher_node_process-turns node 0 ctx (λ k. 0) rounds 1 1 (round (pos 1) (20 ∷ [])) refl
      (omega arith) refl (omega arith) refl refl
