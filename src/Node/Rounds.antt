-- ===== src/Node/Rounds.antt =====
-- The loop of the `..._node_process` functions: which of its rounds get as far as its body.
use vlan_tagger.Prelude.{
  ℕ, zero, suc, ◌≡◌, refl, Bool, true, false, List, [], ◌∷◌, none, some, ℤ, pos, negsuc, Bytes,
}
use vlan_tagger.Queue.{Queue}
use vlan_tagger.Node.{Node, with_input, Round, process_loop}

-- The rounds before the loop ends in which `pop` returned a packet.
unfoldable pub accepted : List Round → List Round
accepted [] = []
accepted (r ∷ rounds) = elim r.stop [
  | true ↦ []
  | false ↦ elim r.packet_size [
    | negsuc n ↦ []
    | pos zero ↦ accepted rounds
    | pos (suc n) ↦ r ∷ accepted rounds
  ]
]

abbrev pub amount : ℤ → ℕ
amount (pos n) = n
amount (negsuc n) = 0

-- The number of bytes that `pop` gave.
abbrev pub bytes_of : Round → ℕ
bytes_of r = amount r.packet_size

-- The body, once for each packet.
abbrev pub run_all {ℓ} :
    {S : Type ℓ}
    → (S → List Queue → Bytes → ℕ → S × List Queue)
    → S
    → List Round
    → S × List (List Queue)
run_all body s [] = (s, [])
run_all body s (r ∷ rs) =
    let (s', queues') = body s r.queues r.buffer (bytes_of r) in
    let (end, trace) = run_all body s' rs in (end, queues' ∷ trace)

-- One round more.
process_loop-round {ℓ} :
    {S : Type ℓ} (body : S → List Queue → Bytes → ℕ → S × List Queue) (rounds : List Round)
    (stop : Bool) (packet_size : ℤ) (buffer : Bytes) (queues : List Queue) (s : S)
    → ((t : S) → process_loop body t rounds ≡ run_all body t (accepted rounds))
    → let r : Round = record {
      stop = stop;
      packet_size = packet_size;
      buffer = buffer;
      queues = queues;
    } in
      process_loop body s (r ∷ rounds) ≡ run_all body s (accepted (r ∷ rounds))
unfolding process_loop accepted
process_loop-round body rounds true z buffer queues s rest = refl
process_loop-round body rounds false (negsuc n) buffer queues s rest = refl
process_loop-round body rounds false (pos zero) buffer queues s rest = rest s
process_loop-round body rounds false (pos (suc n)) buffer queues s rest =
    let after = body s queues buffer (suc n) in rw (rest after.0)

pub process_loop-accepted {ℓ} :
    {S : Type ℓ} (body : S → List Queue → Bytes → ℕ → S × List Queue) (s : S) (rounds : List Round)
    → process_loop body s rounds ≡ run_all body s (accepted rounds)
process_loop-accepted body s [] = unfold process_loop accepted in refl
process_loop-accepted body s (r ∷ rounds) =
    process_loop-round body rounds r.stop r.packet_size r.buffer r.queues s
      (λ t. process_loop-accepted body t rounds)

pub with_input-some {ℓ} :
    {S : Type ℓ} (node : Node) (input : ℕ) (s : S) (run : S × List (List Queue))
    → node.input_queue ≡ some input
    → with_input node s run ≡ run
unfolding with_input
with_input-some node input s run e = rw e

pub with_input-none {ℓ} :
    {S : Type ℓ} (node : Node) (s : S) (run : S × List (List Queue))
    → node.input_queue ≡ none
    → with_input node s run ≡ (s, [])
unfolding with_input
with_input-none node s run e = rw e

-- What holds of each packet and of the queues behind it, in order.
abbrev pub AllRounds : (Round → List Queue → Type 0) → List Round → List (List Queue) → Type 0
AllRounds P [] [] = Unit
AllRounds P (r ∷ rs) (queues ∷ trace) = P r queues × AllRounds P rs trace
AllRounds P [] (queues ∷ trace) = ⊥
AllRounds P (r ∷ rs) [] = ⊥
