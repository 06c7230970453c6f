-- ===== src/LoggerNode/Dumps.antt =====
-- nodes/src/logger_node.c: the length of a dump, and the whole of it.
use vlan_tagger.Prelude.{
  ℕ, zero, suc, ◌+◌, ◌-◌, ◌*◌, ◌/◌, ◌%◌, ◌≤◌, ◌<◌, ◌≡◌, refl, ap, inl, inr, true, [], ◌∷◌, ◌++◌,
  ltb, ◌==◌, arith, Bytes, length, drop, length-append, length-drop, Bool-cases, replicate,
  length-replicate,
}
use vlan_tagger.Frame.{at, over, get_or-append}
use vlan_tagger.Tagger.Frames.{AreBytes}
use vlan_tagger.LoggerNode.{
  packet_sign, size_opening, size_closing, filling, append, digits, digit, decimal, padded, hex4,
  hex2, header, dump_lines, log_packet_hex,
}
use vlan_tagger.LoggerNode.Adds.{Adds-then, append-Adds, hex_cells, characters}
use vlan_tagger.LoggerNode.Lines.{text_line, newline, text_lines, dump_lines-Adds}

-- The number of digits.
digits-le :
    (most base n : ℕ) (later : Bytes) → length (digits most base n later) ≤ most + length later
digits-le zero base n later = omega arith
digits-le (suc most) base n later =
    let rest = digits-le most base (n / base) (digit (n % base) ∷ later) in
    elim (Bool-cases (n / base == 0)) [
      | inl done ↦ rw done (omega arith)
      | inr more ↦ rw more (omega arith)
    ]

digits_4 :
    (most n : ℕ) (later : Bytes) → n < 16 → length (digits (suc most) 16 n later) ≤ 1 + length later
digits_4 most n later h = let one : (n / 16 == 0) ≡ true = ground arith in rw one (omega arith)

digits_8 :
    (most n : ℕ) (later : Bytes)
    → n < 256
    → length (digits (suc (suc most)) 16 n later) ≤ 2 + length later
digits_8 most n later h =
    let rest = digits_4 most (n / 16) (digit (n % 16) ∷ later) (omega arith) in
    elim (Bool-cases (n / 16 == 0)) [
      | inl done ↦ rw done (omega arith)
      | inr more ↦ rw more (omega arith)
    ]

digits_16 :
    (most n : ℕ) (later : Bytes)
    → n < 65536
    → length (digits (suc (suc (suc (suc most)))) 16 n later) ≤ 4 + length later
digits_16 most n later h =
    let rest =
      digits_8 most (n / 16 / 16) (digit (n / 16 % 16) ∷ digit (n % 16) ∷ later) (omega arith) in
    elim (Bool-cases (n / 16 == 0)) [
      | inl done ↦ rw done (omega arith)
      | inr more ↦ elim (Bool-cases (n / 16 / 16 == 0)) [
        | inl done ↦ rw (more, done) (omega arith)
        | inr more' ↦ rw (more, more') (omega arith)
      ]
    ]

length-padded : (w : ℕ) (text : Bytes) → length text ≤ w → length (padded w text) ≡ w
length-padded w text h = omega (
  arith,
  length-append (replicate (w - length text) 48) text,
  length-replicate {A = ℕ} (w - length text) 48,
)

length-hex2 : (c : ℕ) → c < 256 → length (hex2 c) ≡ 2
unfolding hex2
length-hex2 c h = length-padded 2 (digits 8 16 c []) (digits_8 6 c [] h)

length-hex4 : (i : ℕ) → i < 65536 → length (hex4 i) ≡ 4
unfolding hex4
length-hex4 i h = length-padded 4 (digits 16 16 i []) (digits_16 12 i [] h)

-- The columns and the lines.
hex_cells-le : (k : ℕ) (bs : Bytes) → AreBytes bs → length (hex_cells k bs) ≡ 3 * k
hex_cells-le zero bs h = refl
hex_cells-le (suc k) [] h = omega (arith, hex_cells-le k [] h)
hex_cells-le (suc k) (c ∷ bs) h = omega (
  arith,
  hex_cells-le k bs h.1,
  length-append (hex2 c ++ 32 ∷ []) (hex_cells k bs),
  length-append (hex2 c) (32 ∷ []),
  length-hex2 c h.0,
)

characters-le : (k : ℕ) (bs : Bytes) → length (characters k bs) ≤ k
characters-le zero bs = omega arith
characters-le (suc k) [] = omega arith
characters-le (suc k) (c ∷ bs) = omega (arith, characters-le k bs)

text_line-le : (i : ℕ) (bs : Bytes) → i < 65536 → AreBytes bs → length (text_line i bs) ≤ 73
text_line-le i bs small h = omega (
  arith,
  length-append (hex4 i ++ 58 ∷ 32 ∷ [])
      (hex_cells 16 bs ++ ((32 ∷ 124 ∷ []) ++ (characters 16 bs ++ 124 ∷ []))),
  length-append (hex4 i) (58 ∷ 32 ∷ []),
  length-append (hex_cells 16 bs) ((32 ∷ 124 ∷ []) ++ (characters 16 bs ++ 124 ∷ [])),
  length-append (characters 16 bs) (124 ∷ []),
  length-hex4 i small,
  hex_cells-le 16 bs h,
  characters-le 16 bs,
)

newline-le : (bs : Bytes) → length (newline bs) ≤ 1
newline-le bs = elim (Bool-cases (ltb 16 (length bs))) [
  | inl more ↦ rw more (omega arith)
  | inr last ↦ rw last (omega arith)
]

AreBytes-drop : (n : ℕ) (bs : Bytes) → AreBytes bs → AreBytes (drop n bs)
AreBytes-drop zero bs h = h
AreBytes-drop (suc n) [] h = tt
AreBytes-drop (suc n) (c ∷ bs) h = AreBytes-drop n bs h.1

text_lines-le :
    (k i : ℕ) (bs : Bytes) → i + 16 * k ≤ 65536 → AreBytes bs → length (text_lines k i bs) ≤ 74 * k
text_lines-le zero i bs small h = omega arith
text_lines-le (suc k) i [] small h = omega arith
text_lines-le (suc k) i (c ∷ bs) small h =
    let all = c ∷ bs in
    omega (
      arith,
      length-append (text_line i all ++ newline all) (text_lines k (i + 16) (drop 16 all)),
      length-append (text_line i all) (newline all),
      text_line-le i all (omega arith) h,
      newline-le all,
      text_lines-le k (i + 16) (drop 16 all) (omega arith) (AreBytes-drop 16 all h),
    )

-- Two numbers of lines that are both enough.
text_lines-enough :
    (k k' i : ℕ) (bs : Bytes)
    → length bs ≤ 16 * k
    → length bs ≤ 16 * k'
    → text_lines k i bs ≡ text_lines k' i bs
text_lines-enough zero zero i bs h h' = refl
text_lines-enough zero (suc k') i [] h h' = refl
text_lines-enough (suc k) zero i [] h h' = refl
text_lines-enough (suc k) (suc k') i [] h h' = refl
text_lines-enough zero (suc k') i (c ∷ bs) h h' = absurd (omega arith)
text_lines-enough (suc k) zero i (c ∷ bs) h h' = absurd (omega arith)
text_lines-enough (suc k) (suc k') i (c ∷ bs) h h' =
    let fewer = length-drop 16 (c ∷ bs) in
    ap (λ later. (text_line i (c ∷ bs) ++ newline (c ∷ bs)) ++ later)
      (text_lines-enough k k' (i + 16) (drop 16 (c ∷ bs)) (omega arith) (omega arith))

-- The dump of a packet: a line for each 16 bytes.
abbrev pub dump_text : Bytes → Bytes
dump_text p = text_lines (length p) 0 p

decimal-le : (n : ℕ) → length (decimal n) ≤ 20
unfolding decimal
decimal-le n = digits-le 20 10 n []

header-le :
    (node_name : Bytes) (pkt_num size : ℕ)
    → length node_name ≤ 63
    → length (header node_name pkt_num size) ≤ 200
unfolding header
header-le node_name pkt_num size h =
    let size_part = decimal size ++ size_closing in
    let number_part = decimal pkt_num ++ (size_opening ++ size_part) in
    omega (
      arith,
      length-append node_name (packet_sign ++ number_part),
      length-append (decimal pkt_num) (size_opening ++ size_part),
      length-append (decimal size) size_closing,
      decimal-le pkt_num,
      decimal-le size,
    )

module _ (node_name p stale : Bytes) (pkt_num : ℕ) (short : length node_name ≤ 63)
    (fits : length p ≤ 1522) (h : AreBytes p) where
  enough_lines : text_lines (length p / 16 + 1) 0 p ≡ dump_text p
  enough_lines = text_lines-enough (length p / 16 + 1) (length p) 0 p (omega arith) (omega arith)

  length-dump_text : length (dump_text p) ≤ 7104
  length-dump_text =
      rw (text_lines-enough (length p) 96 0 p (omega arith) (omega arith))
        (text_lines-le 96 0 p (omega arith) h)

  -- The dump of a packet of at most 1522 bytes, in the first bytes of the buffer, is printed whole, and
  -- is never cut off: behind the header there is for each 16 bytes a line with the number of the first
  -- one, their hexadecimal numbers and their characters.
  pub log_packet_hex-dump_text :
      (log_packet_hex node_name (over p stale) (length p) pkt_num
        ≡ header node_name pkt_num (length p) ++ dump_text p)
      × (length (header node_name pkt_num (length p) ++ dump_text p) < 8192)
  unfolding log_packet_hex
  log_packet_hex-dump_text =
      let start = header node_name pkt_num (length p) in
      let k = length p / 16 + 1 in
      let same : (i : ℕ) → i < length p → at (over p stale) i ≡ at p i =
        λ i inside. get_or-append p (drop (length p) stale) i inside in
      let total = length-append start (dump_text p) in
      let room : length (start ++ dump_text p) < 8192 =
        omega (arith, total, header-le node_name pkt_num (length p) short, length-dump_text) in
      let lines = dump_lines k (over p stale) (length p) 0 in
      let filled : lines (append start (filling [])) ≡ filling (start ++ text_lines k 0 p) =
        Adds-then (append start) lines (append-Adds start)
          (dump_lines-Adds p (over p stale) same k 0) [] (rw enough_lines (omega arith)) in
      (rw filled (rw enough_lines), room)
