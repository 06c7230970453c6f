-- ===== src/Tagger/Frames.antt =====
-- nodes/src/tagger_node.c: the frame that the tagger makes of a frame, and which frames it drops.
use vlan_tagger.Prelude.{
  ℕ, zero, suc, ◌+◌, ◌-◌, ◌*◌, ◌/◌, ◌%◌, ◌^◌, ◌≤◌, ◌<◌, ◌≡◌, refl, sym, ap, ◌∙◌, inl, inr,
  Bool-cases, true, false, ◌&&◌, [], ◌∷◌, ◌++◌, none, some, arith, ltb, leb, ◌==◌, if◌then◌else◌,
  Bytes, length, take, drop, All, append_assoc, length-append, length-take, length-drop,
  take-append, drop-add-append, drop-drop, take-take, take-drop,
}
use vlan_tagger.Net.{load16, byte, ntohs, ntohl-load32, ntohs-load16}
use vlan_tagger.Frame.{eth_hlen, eth_p_ip, at, memcpy_at, over, get_or-append}
use vlan_tagger.Tagger.{get_ip_offset, address_at, get_ip, store16, edit_packet}

-- README.md: [MAC destination] [MAC source] [TPID] [TCI] [EtherType] [Payload].
abbrev pub tagged : Bytes → ℕ → Bytes
tagged p vid = take 12 p ++ (0x81 ∷ 0x00 ∷ vid / 256 ∷ vid % 256 ∷ drop 12 p)

-- Two bytes, and four, of a frame in network order.
abbrev pub be16 : Bytes → ℕ → ℕ
be16 p i = at p i * 256 + at p (i + 1)

abbrev pub be32 : Bytes → ℕ → ℕ
be32 p i = at p i * 2 ^ 24 + at p (i + 1) * 2 ^ 16 + at p (i + 2) * 256 + at p (i + 3)

abbrev pub AreBytes : Bytes → Type 0
AreBytes = All (λ c. c < 256)

-- A copy behind the `n` bytes that are in place.
pub memcpy_at-append :
    (done rest src : Bytes) (k n : ℕ)
    → k ≡ length done
    → n ≤ length rest
    → n ≤ length src
    → memcpy_at (done ++ rest) k src n ≡ some ((done ++ take n src) ++ drop n rest)
unfolding memcpy_at
memcpy_at-append done rest src k n e fits readable =
    let inside : (leb (k + n) (length (done ++ rest)) && leb n (length src)) ≡ true =
      ground (arith, length-append done rest) in
    rw inside (
      rw (e, take-append done rest, drop-add-append n done rest)
        (ap some (sym (append_assoc done (take n src) (drop n rest)))))

-- The low 12 bits of a tag, as they stand in memory behind `htons`.
store16-ntohs : (x : ℕ) → x < 2 ^ 16 → store16 (ntohs x) ≡ x / 256 ∷ x % 256 ∷ []
unfolding ntohs
store16-ntohs x h =
    let hi : byte 0 (ntohs x) ≡ x / 256 = omega arith in
    let lo : byte 1 (ntohs x) ≡ x % 256 = omega arith in rw (hi, lo)

-- The four copies, where there is room for four more bytes than the packet has.
module _ (input output : Bytes) (tci n : ℕ) (h1 : 12 ≤ n) (h2 : n ≤ length input)
    (h3 : n + 4 ≤ length output) where
  abbrev head : Bytes
  head = take 12 input

  length-head : length head ≡ 12
  length-head = omega (arith, length-take 12 input)

  copy_macs : memcpy_at output 0 input 12 ≡ some (head ++ drop 12 output)
  copy_macs = memcpy_at-append [] output input 0 12 refl (omega arith) (omega arith)

  copy_tpid :
      memcpy_at (head ++ drop 12 output) 12 (0x81 ∷ 0 ∷ []) 2
      ≡ some ((head ++ (0x81 ∷ 0 ∷ [])) ++ drop 14 output)
  copy_tpid =
      memcpy_at-append head (drop 12 output) (0x81 ∷ 0 ∷ []) 12 2 (sym length-head)
        (omega (arith, length-drop 12 output)) (omega arith)
      ∙ rw (drop-drop 2 12 output)

  abbrev marked : Bytes
  marked = head ++ (0x81 ∷ 0 ∷ [])

  copy_tci :
      memcpy_at (marked ++ drop 14 output) 14 (tci / 256 ∷ tci % 256 ∷ []) 2
      ≡ some ((marked ++ (tci / 256 ∷ tci % 256 ∷ [])) ++ drop 16 output)
  copy_tci =
      memcpy_at-append marked (drop 14 output) (tci / 256 ∷ tci % 256 ∷ []) 14 2
        (omega (arith, length-head, length-append head (0x81 ∷ 0 ∷ [])))
        (omega (arith, length-drop 14 output)) (omega arith)
      ∙ rw (drop-drop 2 14 output)

  abbrev labelled : Bytes
  labelled = marked ++ (tci / 256 ∷ tci % 256 ∷ [])

  copy_rest :
      memcpy_at (labelled ++ drop 16 output) 16 (drop 12 input) (n - 12)
      ≡ some ((labelled ++ drop 12 (take n input)) ++ drop (n + 4) output)
  copy_rest =
      memcpy_at-append labelled (drop 16 output) (drop 12 input) 16 (n - 12)
        (omega (
          arith,
          length-head,
          length-append head (0x81 ∷ 0 ∷ []),
          length-append marked (tci / 256 ∷ tci % 256 ∷ []),
        ))
        (omega (arith, length-drop 16 output)) (omega (arith, length-drop 12 input))
      ∙ (let e : 12 + (n - 12) ≡ n = omega arith in
          let f : 16 + (n - 12) ≡ n + 4 = omega arith in
          rw (drop-drop (n - 12) 16 output, take-drop 12 (n - 12) input, e, f))

  labelled-tagged : labelled ++ drop 12 (take n input) ≡ tagged (take n input) tci
  labelled-tagged = rw (
    append_assoc marked (tci / 256 ∷ tci % 256 ∷ []) (drop 12 (take n input)),
    append_assoc head (0x81 ∷ 0 ∷ []) (tci / 256 ∷ tci % 256 ∷ drop 12 (take n input)),
    take-take 12 n input h1,
  )

-- With room for four more bytes the copies write the tagged frame, and leave the rest of the buffer.
pub edit_packet-fits :
    (input output : Bytes) (vid n : ℕ)
    → 12 ≤ n
    → n ≤ length input
    → n + 4 ≤ length output
    → n + 4 < 2 ^ 16
    → edit_packet input output vid n
      ≡ some (n + 4, tagged (take n input) (vid % 2 ^ 12) ++ drop (n + 4) output)
unfolding edit_packet
edit_packet-fits input output vid n h1 h2 h3 h4 =
    let tci : ℕ = vid % 2 ^ 12 in
    let long : ltb n 12 ≡ false = ground arith in
    let small : (n + 4) % 2 ^ 16 ≡ n + 4 = omega arith in
    rw (
      long,
      copy_macs input output tci n h1 h2 h3,
      store16-ntohs 0x8100 (omega arith),
      copy_tpid input output tci n h1 h2 h3,
      store16-ntohs tci (omega arith),
      copy_tci input output tci n h1 h2 h3,
      copy_rest input output tci n h1 h2 h3,
      small,
      labelled-tagged input output tci n h1 h2 h3,
    )

-- Without it the last copy goes behind the end of the output buffer.
memcpy_at-none : (dst src : Bytes) (k n : ℕ) → length dst < k + n → memcpy_at dst k src n ≡ none
unfolding memcpy_at
memcpy_at-none dst src k n h = ground arith

pub edit_packet-overrun :
    (input output : Bytes) (vid n : ℕ)
    → 12 ≤ length input
    → 16 ≤ length output
    → 12 ≤ n
    → length output < n + 4
    → edit_packet input output vid n ≡ none
unfolding edit_packet
edit_packet-overrun input output vid n h2 h3 h1 h4 =
    let tci : ℕ = vid % 2 ^ 12 in
    let start : Bytes = labelled input output tci 12 (omega arith) h2 h3 in
    let long : ltb n 12 ≡ false = ground arith in
    let behind : length (start ++ drop 16 output) < 16 + (n - 12) = omega (
      arith,
      length-append start (drop 16 output),
      length-append (take 12 input ++ (0x81 ∷ 0 ∷ [])) (tci / 256 ∷ tci % 256 ∷ []),
      length-append (take 12 input) (0x81 ∷ 0 ∷ []),
      length-take 12 input,
      length-drop 16 output,
    ) in
    rw (
      long,
      copy_macs input output tci 12 (omega arith) h2 h3,
      store16-ntohs 0x8100 (omega arith),
      copy_tpid input output tci 12 (omega arith) h2 h3,
      store16-ntohs tci (omega arith),
      copy_tci input output tci 12 (omega arith) h2 h3,
      memcpy_at-none (start ++ drop 16 output) (drop 12 input) 16 (n - 12) behind,
    )

-- What stands at a place of the packet stands there in the buffer.
at-over : (p stale : Bytes) (i : ℕ) → i < length p → at (over p stale) i ≡ at p i
at-over p stale i h = get_or-append p (drop (length p) stale) i h

pub at-lt : (p : Bytes) (i : ℕ) → AreBytes p → at p i < 256
at-lt [] i h = omega arith
at-lt (c ∷ p) zero h = h.0
at-lt (c ∷ p) (suc i) h = at-lt p i h.1

ether_type-over :
    (p stale : Bytes)
    → AreBytes p
    → 34 ≤ length p
    → ntohs (load16 (at (over p stale) 12) (at (over p stale) 13)) ≡ be16 p 12
ether_type-over p stale bytes long =
    rw (at-over p stale 12 (omega arith), at-over p stale 13 (omega arith))
      (ntohs-load16 (at p 12) (at p 13) (at-lt p 12 bytes) (at-lt p 13 bytes))

address_at-over :
    (p stale : Bytes) → AreBytes p → 34 ≤ length p → address_at (over p stale) 30 ≡ be32 p 30
address_at-over p stale bytes long =
    rw
      (
        at-over p stale 30 (omega arith),
        at-over p stale 31 (omega arith),
        at-over p stale 32 (omega arith),
        at-over p stale 33 (omega arith),
      )
      (ntohl-load32 (at p 30) (at p 31) (at p 32) (at p 33) (at-lt p 30 bytes) (at-lt p 31 bytes)
        (at-lt p 32 bytes) (at-lt p 33 bytes))

get_ip_offset-eq :
    (buffer : Bytes) (t : ℕ)
    → ntohs (load16 (at buffer 12) (at buffer 13)) ≡ t
    → get_ip_offset buffer ≡ (if t == eth_p_ip then some eth_hlen else none)
unfolding get_ip_offset
get_ip_offset-eq buffer t e = rw e (ground arith)

-- The destination address of an IPv4 packet, and 0 for anything else.
pub get_ip-over :
    (p stale : Bytes)
    → AreBytes p
    → 34 ≤ length p
    → get_ip (over p stale) ≡ (if be16 p 12 == eth_p_ip then be32 p 30 else 0)
unfolding get_ip
get_ip-over p stale bytes long = elim (Bool-cases (be16 p 12 == eth_p_ip)) [
  | inl ip ↦
      rw
        (
          get_ip_offset-eq (over p stale) (be16 p 12) (ether_type-over p stale bytes long),
          ip,
          get_ip,
        )
        (address_at-over p stale bytes long)
  | inr other ↦ rw (
    get_ip_offset-eq (over p stale) (be16 p 12) (ether_type-over p stale bytes long),
    other,
    get_ip,
  )
]
