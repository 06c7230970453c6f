-- ===== src/Sockets/Process.antt =====
-- nodes/src/sniffer_node.c and nodes/src/sender_node.c: the two process functions.
use vlan_tagger.Prelude.{
  ℕ, ◌+◌, ◌%◌, ◌^◌, Bool, true, false, List, [], ◌∷◌, none, some, leb, ◌==◌, ℤ, pos, negsuc, Bytes,
  take,
}
use vlan_tagger.Queue.{Queue}
use vlan_tagger.Node.{Node, node_send_to_outputs, Round}
use vlan_tagger.Sockets.{PacketContext, close}

-- `MAX_ERR_NUM`
abbrev pub max_err_num : ℕ
max_err_num = 3

-- How far a process function has come when the listed rounds are used up: it is in its loop, it left the
-- loop, or it ended at one failure too many.
pub data Ended : Type 0 where
  running : Ended
  stopped : Ended
  gave_up : Ended

-- The loop of `sniffer_node_process`. The address that `recvfrom` leaves in the context is not kept:
-- nothing reads it. A round's `packet_size` is what `recvfrom` returns. The result has
-- the queues behind each frame that was sent to the outputs.
unfoldable pub sniffer_loop : Node → ℕ → List Round → List (List Queue) × Ended
sniffer_loop node err_counter [] = ([], running)
sniffer_loop node err_counter (r ∷ rounds) = elim r.stop [
  | true ↦ ([], stopped)
  | false ↦ elim r.packet_size [
    | negsuc n ↦ elim (leb max_err_num err_counter) [
      | true ↦ ([], gave_up)
      | false ↦ sniffer_loop node ((err_counter + 1) % 2 ^ 8) rounds
    ]
    | pos n ↦
        let (trace, ended) = sniffer_loop node 0 rounds in
        (node_send_to_outputs (some node) r.queues (some r.buffer) (n % 2 ^ 16) ∷ trace, ended)
  ]
]

-- Whether the function sets `*node->should_exit` at its end.
abbrev pub raises : Node → Ended → Bool
raises node gave_up = node.should_exit
raises node stopped = false
raises node running = false

-- The open descriptors behind the two process functions: the sender leaves its socket open where it
-- gives up.
abbrev pub sniffer_fds : PacketContext → List ℕ → Ended → List ℕ
sniffer_fds ctx fds running = fds
sniffer_fds ctx fds stopped = close ctx.socket fds
sniffer_fds ctx fds gave_up = close ctx.socket fds

abbrev pub sender_fds : PacketContext → List ℕ → Ended → List ℕ
sender_fds ctx fds running = fds
sender_fds ctx fds stopped = close ctx.socket fds
sender_fds ctx fds gave_up = fds

pub record Finished (A : Type 0) : Type 0 where
  pub trace : List A
  pub ended : Ended
  pub raised : Bool
  pub fds : List ℕ

-- `sniffer_node_process`
unfoldable pub sniffer_node_process :
    Node → PacketContext → List ℕ → List Round → Finished (List Queue)
sniffer_node_process node ctx fds rounds =
    let (trace, ended) = sniffer_loop node 0 rounds in
    record {
      trace = trace;
      ended = ended;
      raised = raises node ended;
      fds = sniffer_fds ctx fds ended;
    }

-- What a round of `sender_node_process` meets: the flag at its start, what `pop` returns and leaves in
-- the buffer, the flag behind a failed `pop`, and whether `sendto` returns -1.
pub record SendRound : Type 0 where
  pub stop : Bool
  pub rcv_len : ℤ
  pub buffer : Bytes
  pub stop_later : Bool
  pub failed : Bool

-- `VLAN_ETH_FRAME_LEN`, as sender_node.c has it.
abbrev pub vlan_eth_frame_len : ℕ
vlan_eth_frame_len = 1518

-- The loop of `sender_node_process`: the frames given to `sendto`, in order.
unfoldable pub sender_loop : ℕ → List SendRound → List Bytes × Ended
sender_loop err_counter [] = ([], running)
sender_loop err_counter (r ∷ rounds) = elim r.stop [
  | true ↦ ([], stopped)
  | false ↦ elim r.rcv_len [
    | negsuc n ↦ elim r.stop_later [ true ↦ ([], stopped) | false ↦ sender_loop err_counter rounds ]
    | pos n ↦ elim (leb vlan_eth_frame_len n) [
      | true ↦ sender_loop err_counter rounds
      | false ↦ elim r.failed [
        | true ↦ elim (err_counter == 3) [
          | true ↦ (take n r.buffer ∷ [], gave_up)
          | false ↦
              let (sent, ended) = sender_loop (err_counter + 1) rounds in
              (take n r.buffer ∷ sent, ended)
        ]
        | false ↦ let (sent, ended) = sender_loop 0 rounds in (take n r.buffer ∷ sent, ended)
      ]
    ]
  ]
]

-- `sender_node_process`; without an input queue it leaves its loop at once.
unfoldable pub sender_node_process : Node → PacketContext → List ℕ → List SendRound → Finished Bytes
sender_node_process node ctx fds rounds =
    let run : List Bytes × Ended = elim node.input_queue [
      | none ↦ ([], stopped)
      | some q ↦ sender_loop 0 rounds
    ] in
    record {
      trace = run.0;
      ended = run.1;
      raised = raises node run.1;
      fds = sender_fds ctx fds run.1;
    }
