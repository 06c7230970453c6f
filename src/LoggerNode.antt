-- ===== src/LoggerNode.antt =====
-- nodes/src/logger_node.c: the node that writes packets to the log as hexadecimal dumps. A text is the
-- list of its characters' codes.
pub mod Adds
pub mod Lines
pub mod Dumps
pub mod Loop
mod Tests
use vlan_tagger.Prelude.{
  ℕ, zero, suc, ◌+◌, ◌-◌, ◌*◌, ◌/◌, ◌%◌, ◌^◌, Bool, true, false, ◌&&◌, ◌||◌, List, [], ◌∷◌, ◌++◌,
  Option, none, some, leb, ltb, ◌==◌, if◌then◌else◌, ℤ, pos, negsuc, Bytes, length, take, replicate,
}
use vlan_tagger.Queue.{Queue}
use vlan_tagger.Node.{
  Node, custom, logger_process, node_create, node_send_to_outputs, Round, process_loop, with_input,
}
use vlan_tagger.Frame.{at, ◌>>=◌}

-- `LoggerContext`
pub record LoggerContext : Type 0 where
  pub log_interval : ℤ
  pub packet_count : ℕ

-- `logger_node_create`: the name may be NULL, and each of the three allocations may fail.
unfoldable pub logger_node_create :
    Bool → Bool → Bool → Option Bytes → ℤ → Option (Node × LoggerContext)
logger_node_create ctx_made node_made outputs_made (some name) log_interval =
    if ctx_made
    then (node_create node_made outputs_made (some name) custom (some logger_process) >>= λ node.
        some (node, record { log_interval = log_interval; packet_count = 0 }))
    else none
logger_node_create ctx_made node_made outputs_made none log_interval = none

-- The size of `full_dump`.
abbrev pub dump_size : ℕ
dump_size = 8192

-- `full_dump` while it is being filled: `total_offset` characters are in place, and `truncated` is
-- where the code has gone to `truncated_end`.
pub data Dump : Type 0 where
  filling : Bytes → Dump
  truncated : Bytes → Dump

-- `snprintf` of a text behind what is in place, with the test of its return value, which is the
-- length of the text.
abbrev pub append : Bytes → Dump → Dump
append text (truncated t) = truncated t
append text (filling t) =
    if leb (dump_size - length t) (length text) then truncated t else filling (t ++ text)

-- The digits of a number, at most as many as the first argument says.
abbrev pub digit : ℕ → ℕ
digit d = if ltb d 10 then 48 + d else 87 + d

abbrev pub digits : ℕ → ℕ → ℕ → Bytes → Bytes
digits zero base n later = later
digits (suc most) base n later =
    let more = digits most base (n / base) (digit (n % base) ∷ later) in
    if n / base == 0 then digit (n % base) ∷ later else more

-- `%lu` and `%zd` of a number below 2^64; `%04zx`, and `%02x` of a byte.
unfoldable pub decimal : ℕ → Bytes
decimal n = digits 20 10 n []

abbrev pub padded : ℕ → Bytes → Bytes
padded width text = replicate (width - length text) 48 ++ text

unfoldable pub hex4 : ℕ → Bytes
hex4 n = padded 4 (digits 16 16 n [])

unfoldable pub hex2 : ℕ → Bytes
hex2 n = padded 2 (digits 8 16 n [])

-- The fixed parts of the first line: "=== ", ": Packet #", " (" and " bytes) ===\n".
abbrev pub opening : Bytes
opening = 61 ∷ 61 ∷ 61 ∷ 32 ∷ []

abbrev pub packet_sign : Bytes
packet_sign = 58 ∷ 32 ∷ 80 ∷ 97 ∷ 99 ∷ 107 ∷ 101 ∷ 116 ∷ 32 ∷ 35 ∷ []

abbrev pub size_opening : Bytes
size_opening = 32 ∷ 40 ∷ []

abbrev pub size_closing : Bytes
size_closing = 32 ∷ 98 ∷ 121 ∷ 116 ∷ 101 ∷ 115 ∷ 41 ∷ 32 ∷ 61 ∷ 61 ∷ 61 ∷ 10 ∷ []

-- "=== %s: Packet #%lu (%zd bytes) ===\n"
unfoldable pub header : Bytes → ℕ → ℕ → Bytes
header node_name pkt_num size =
    opening
    ++ (node_name
        ++ (packet_sign ++ (decimal pkt_num ++ (size_opening ++ (decimal size ++ size_closing)))))

-- The character of a byte in the last column.
abbrev pub shown : ℕ → ℕ
shown c = if leb 32 c && leb c 126 then c else 46

-- The loop over the hexadecimal columns from `j` on, as many as are left of the 16.
unfoldable pub hex_columns : Bytes → ℕ → ℕ → ℕ → ℕ → Dump → Dump
hex_columns buffer size i j zero dump = dump
hex_columns buffer size i j (suc left) dump =
    let text : Bytes =
      if ltb (i + j) size then hex2 (at buffer (i + j)) ++ 32 ∷ [] else 32 ∷ 32 ∷ 32 ∷ [] in
    hex_columns buffer size i (j + 1) left (append text dump)

-- The loop over the characters.
unfoldable pub ascii_columns : Bytes → ℕ → ℕ → ℕ → ℕ → Dump → Dump
ascii_columns buffer size i j zero dump = dump
ascii_columns buffer size i j (suc left) dump =
    let rest =
      ascii_columns buffer size i (j + 1) left (append (shown (at buffer (i + j)) ∷ []) dump) in
    if ltb (i + j) size then rest else dump

-- The line of the bytes from `i` on, with the newline if another one follows.
unfoldable pub dump_line : Bytes → ℕ → ℕ → Dump → Dump
dump_line buffer size i dump =
    let columns = hex_columns buffer size i 0 16 (append (hex4 i ++ 58 ∷ 32 ∷ []) dump) in
    let bar =
      append (124 ∷ []) (ascii_columns buffer size i 0 16 (append (32 ∷ 124 ∷ []) columns)) in
    if ltb (i + 16) size then append (10 ∷ []) bar else bar

-- The loop over the lines, for at most the given number of rounds.
unfoldable pub dump_lines : ℕ → Bytes → ℕ → ℕ → Dump → Dump
dump_lines zero buffer size i dump = dump
dump_lines (suc fuel) buffer size i dump =
    let rest = dump_lines fuel buffer size (i + 16) (dump_line buffer size i dump) in
    if ltb i size then rest else dump

-- What is printed: `truncated_end`, where the notice goes behind the text, as far as there is room.
abbrev pub notice : Bytes
notice =
    10 ∷ 46 ∷ 46 ∷ 46 ∷ 40 ∷ 116 ∷ 114 ∷ 117 ∷ 110 ∷ 99 ∷ 97 ∷ 116 ∷ 101 ∷ 100 ∷ 41 ∷ 46 ∷ 46 ∷ 46
    ∷ 10 ∷ []

abbrev pub printed : Dump → Bytes
printed (filling t) = t
printed (truncated t) =
    if ltb (length t) dump_size then t ++ take (dump_size - 1 - length t) notice else t

-- `log_packet_hex`, with a round for each 16 bytes that were begun.
unfoldable pub log_packet_hex : Bytes → Bytes → ℕ → ℕ → Bytes
log_packet_hex node_name buffer size pkt_num =
    printed (
      dump_lines (size / 16 + 1) buffer size 0
        (append (header node_name pkt_num size) (filling [])))

-- `ctx->log_interval <= 1 || ctx->packet_count % ctx->log_interval == 0`
abbrev pub is_due : ℤ → ℕ → Bool
is_due (negsuc n) packet_count = true
is_due (pos n) packet_count = leb n 1 || (packet_count % n == 0)

-- What the loop's body makes of the context and of the list of the texts that were logged.
unfoldable pub log_packet :
    Node → LoggerContext × List Bytes → Bytes → ℕ → LoggerContext × List Bytes
log_packet node (ctx, logged) buffer packet_size =
    let packet_count : ℕ = (ctx.packet_count + 1) % 2 ^ 64 in
    let text = log_packet_hex node.name buffer packet_size packet_count in
    (
      record ctx { packet_count = packet_count },
      if is_due ctx.log_interval packet_count then logged ++ text ∷ [] else logged,
    )

-- `logger_node_process`
unfoldable pub logger_node_process :
    Node → LoggerContext → List Round → (LoggerContext × List Bytes) × List (List Queue)
logger_node_process node ctx rounds =
    with_input node (ctx, [])
      (process_loop
        (λ s queues buffer packet_size. (
          log_packet node s buffer packet_size,
          node_send_to_outputs (some node) queues (some buffer) packet_size,
        ))
        (ctx, []) rounds)
