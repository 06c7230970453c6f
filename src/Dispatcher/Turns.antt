-- ===== src/Dispatcher/Turns.antt =====
-- nodes/src/dispatcher_node.c: with the round-robin strategy the outputs take turns.
use vlan_tagger.Prelude.{
  ℕ_discrete, Option-cases, Option-cases, ℕ, zero, suc, ◌+◌, ◌%◌, ◌^◌, ◌≤◌, ◌<◌, ◌≡◌, refl, sym,
  ◌∙◌, ap, List, [], ◌∷◌, Option, none, some, arith, Bytes, length, get_elem?, ◌==◌, inl, inr,
  Bool-cases, false,
}
use native.Mathlib.Nat.{mod_self, mod-lt, add-mod_left}
use vlan_tagger.Queue.{Queue, push}
use vlan_tagger.Node.{Node, max_node_outputs, update, Round, process_loop}
use vlan_tagger.Node.Rounds.{accepted, bytes_of, run_all, process_loop-accepted, with_input-some}
use vlan_tagger.Dispatcher.{
  DispatcherContext, round_robin, choose, dispatch_to, dispatch, dispatcher_node_process, is_pos,
}

-- The round's queues with its packet pushed into the one at the place `o`.
abbrev pub given : Round → ℕ → List Queue
given r o = update r.queues o (λ q. (push q r.buffer (bytes_of r)).1)

update-none {ℓ} :
    {A : Type ℓ} (xs : List A) (i : ℕ) (f : A → A) → get_elem? xs i ≡ none → update xs i f ≡ xs
update-none [] i f e = refl
update-none (x ∷ xs) zero f e = absurd (cc)
update-none (x ∷ xs) (suc i) f e = ap (λ t. x ∷ t) (update-none xs i f e)

-- What is pushed, and where.
dispatch_to-given :
    (ctx : DispatcherContext) (r : Round) (o : ℕ)
    → (dispatch_to ctx (some o) r.queues r.buffer (bytes_of r)).1 ≡ given r o
unfolding dispatch_to
dispatch_to-given ctx r o = elim (Option-cases (get_elem? r.queues o)) [
  | inl e ↦ rw (e, dispatch_to) (sym (update-none r.queues o _ e))
  | inr (q, e) ↦ rw (e, dispatch_to)
]

-- A push changes neither the strategy nor whose turn it is.
dispatch_to-ctx :
    (ctx : DispatcherContext) (o : Option ℕ) (queues : List Queue) (buffer : Bytes) (size : ℕ)
    → ((dispatch_to ctx o queues buffer size).0.strategy ≡ ctx.strategy)
      × ((dispatch_to ctx o queues buffer size).0.next_index ≡ ctx.next_index)
unfolding dispatch_to
dispatch_to-ctx ctx none queues buffer size = (refl, refl)
dispatch_to-ctx ctx (some o) queues buffer size = elim (Option-cases (get_elem? queues o)) [
  | inl e ↦ rw (e, dispatch_to) (refl, refl)
  | inr (q, e) ↦ elim (Bool-cases (is_pos (push q buffer size).0 size)) [
    | inl f ↦ rw (e, dispatch_to, f) (refl, refl)
    | inr f ↦ rw (e, dispatch_to, f) (refl, refl)
  ]
]

-- The places in turn from the `start`-th on.
module _ (node : Node) (few : length node.output_queues ≤ max_node_outputs) where
  abbrev m : ℕ
  m = length node.output_queues

  choose-robin :
      (ctx : DispatcherContext) (rand : ℕ → ℕ)
      → ctx.strategy ≡ round_robin
      → ctx.next_index < m
      → choose ctx m rand
        ≡ (ctx.next_index, record ctx { next_index = (ctx.next_index + 1) % m }, rand)
  unfolding choose
  choose-robin ctx rand robin valid =
      let now : ctx.next_index % m ≡ ctx.next_index = grind arith in
      let next : ((ctx.next_index + 1) % 2 ^ 32) % m ≡ (ctx.next_index + 1) % m =
        let small : (ctx.next_index + 1) % 2 ^ 32 ≡ ctx.next_index + 1 = omega arith in rw small in
      rw (robin, now, next)

  dispatch-turn :
      (ctx : DispatcherContext) (rand : ℕ → ℕ) (r : Round)
      → ctx.strategy ≡ round_robin
      → ctx.next_index < m
      → let after = dispatch node (ctx, rand) r.queues r.buffer (bytes_of r) in
        (after.0.0.strategy ≡ round_robin)
        × (after.0.0.next_index ≡ (ctx.next_index + 1) % m)
        × ((o : ℕ) → get_elem? node.output_queues ctx.next_index ≡ some o → after.1 ≡ given r o)
  unfolding dispatch
  dispatch-turn ctx rand r robin valid =
      let next : DispatcherContext = record ctx { next_index = (ctx.next_index + 1) % m } in
      let kept =
        dispatch_to-ctx next (get_elem? node.output_queues ctx.next_index) r.queues r.buffer
          (bytes_of r) in
      rw (choose-robin ctx rand robin valid)
        (kept.0 ∙ robin, kept.1, λ o e. rw e (dispatch_to-given next r o))

  turn_mod : (n k : ℕ) → n < m → ((n + 1) % m + k) % m ≡ (n + suc k) % m
  turn_mod n k valid = elim (ℕ_discrete (n + 1) m) [
    | yes last ↦
        let first : (n + 1) % m ≡ 0 = rw last (mod_self m) in
        let round : n + suc k ≡ m + k = omega arith in
        let from : 0 + k ≡ k = omega arith in rw (first, round, from) (sym (add-mod_left m k))
    | no inner ↦
        let same : (n + 1) % m ≡ n + 1 = grind arith in
        let shift : n + 1 + k ≡ n + suc k = omega arith in rw (same, shift)
  ]

  -- The packets in order, the `k`-th into the `k`-th place in turn.
  run_all-turns :
      (rs : List Round) (ctx : DispatcherContext) (rand : ℕ → ℕ) (k o : ℕ) (r : Round)
      → ctx.strategy ≡ round_robin
      → ctx.next_index < m
      → get_elem? rs k ≡ some r
      → get_elem? node.output_queues ((ctx.next_index + k) % m) ≡ some o
      → get_elem? (run_all (dispatch node) (ctx, rand) rs).1 k ≡ some (given r o)
  run_all-turns [] ctx rand k o r robin valid at_k place = absurd (cc)
  run_all-turns (s ∷ rs) ctx rand zero o r robin valid at_k place =
      let same : s ≡ r = cc in
      let now : (ctx.next_index + 0) % m ≡ ctx.next_index = grind arith in
      let turn = dispatch-turn ctx rand s robin valid in
      ap some (turn.2 o (rw now at place) ∙ rw same)
  run_all-turns (s ∷ rs) ctx rand (suc k) o r robin valid at_k place =
      let turn = dispatch-turn ctx rand s robin valid in
      let after = (dispatch node (ctx, rand) s.queues s.buffer (bytes_of s)).0 in
      let same : (after.0.next_index + k) % m ≡ (ctx.next_index + suc k) % m =
        rw turn.1 (turn_mod ctx.next_index k valid) in
      run_all-turns rs after.0 after.1 k o r turn.0
        (rw turn.1 (mod-lt (ctx.next_index + 1) (omega arith))) at_k (rw same place)

-- With the round-robin strategy, one to sixteen outputs, an input queue and a `next_index` below
-- the number of outputs, the `k`-th packet that the dispatcher gets is pushed into the output
-- whose turn it is, the places of the outputs counted on from `next_index` and round the end, and
-- into no other queue.
pub dispatcher_node_process-turns :
    (node : Node) (input : ℕ) (ctx : DispatcherContext) (rand : ℕ → ℕ) (rounds : List Round)
    (k o : ℕ) (r : Round)
    → node.input_queue ≡ some input
    → length node.output_queues ≤ max_node_outputs
    → ctx.strategy ≡ round_robin
    → ctx.next_index < length node.output_queues
    → get_elem? (accepted rounds) k ≡ some r
    → get_elem? node.output_queues ((ctx.next_index + k) % length node.output_queues) ≡ some o
    → get_elem? (dispatcher_node_process node ctx rand rounds).1 k ≡ some (given r o)
unfolding dispatcher_node_process
dispatcher_node_process-turns node input ctx rand rounds k o r has_input few robin valid at_k
      place =
    let outputs : (length node.output_queues == 0) ≡ false = ground arith in
    let run = process_loop (dispatch node) (ctx, rand) rounds in
    rw
      (
        outputs,
        with_input-some node input (ctx, rand) run has_input,
        process_loop-accepted (dispatch node) (ctx, rand) rounds,
      )
      (run_all-turns node few (accepted rounds) ctx rand k o r robin valid at_k place)
