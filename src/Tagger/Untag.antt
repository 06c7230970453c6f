-- ===== src/Tagger/Untag.antt =====
-- nodes/src/tagger_node.c: what a frame that the tagger sent on says of the frame that came in.
use vlan_tagger.Prelude.{
  ◌≢◌, ◌⊎◌, refl, sym, ℕ, zero, suc, ◌+◌, ◌/◌, ◌%◌, ◌^◌, ◌≤◌, ◌≡◌, ◌∙◌, inl, inr, Bool-cases, List,
  ◌∷◌, ◌++◌, some, arith, dec_lt, ltb, ◌==◌, ℤ, pos, negsuc, Bytes, length, take, drop,
  length-append, length-take, length-drop, take-append, take-append_eq, take-append-drop,
  append_assoc, get_or-add-append, drop-add-append,
}
use vlan_tagger.Frame.{ethernet_frame_length, eth_p_ip, over}
use vlan_tagger.Tagger.Frames.{
  tagged, be16, be32, AreBytes, edit_packet-fits, edit_packet-overrun, get_ip-over,
}
use vlan_tagger.Tagger.{
  TaggerRule, get_tag, edit_packet, to_uint16, Handled, skipped, overrun, sent, handled, tag_with,
  tag_packet,
}

-- The 802.1Q header taken out again.
abbrev pub untagged : Bytes → Bytes
untagged q = take 12 q ++ drop 16 q

length-macs : (p : Bytes) → 12 ≤ length p → length (take 12 p) ≡ 12
length-macs p long = omega (arith, length-take 12 p)

-- The TPID of a tagged frame.
be16-tagged : (p rest : Bytes) (tci : ℕ) → 12 ≤ length p → be16 (tagged p tci ++ rest) 12 ≡ 0x8100
be16-tagged p rest tci long =
    let behind : Bytes = (0x81 ∷ 0x00 ∷ tci / 256 ∷ tci % 256 ∷ drop 12 p) ++ rest in
    rw (
      append_assoc (take 12 p) (0x81 ∷ 0x00 ∷ tci / 256 ∷ tci % 256 ∷ drop 12 p) rest,
      get_or-add-append (take 12 p) behind 0 12 0 (omega (arith, length-macs p long)),
      get_or-add-append (take 12 p) behind 1 13 0 (omega (arith, length-macs p long)),
    )

untagged-tagged : (p : Bytes) (tci : ℕ) → 12 ≤ length p → untagged (tagged p tci) ≡ p
untagged-tagged p tci long =
    let behind : Bytes = 0x81 ∷ 0x00 ∷ tci / 256 ∷ tci % 256 ∷ drop 12 p in
    let front : take 12 (tagged p tci) ≡ take 12 p =
      take-append_eq 12 (take 12 p) behind (omega (arith, length-macs p long)) in
    let rear : drop 16 (tagged p tci) ≡ drop 12 p =
      let e : 16 ≡ length (take 12 p) + 4 = omega (arith, length-macs p long) in
      rw e (drop-add-append 4 (take 12 p) behind) in
    rw (front, rear) (take-append-drop 12 p)

tag_with-handled :
    (tag : ℤ) (buffer output : Bytes) (size : ℕ) (h : Handled)
    → tag_with tag buffer output size ≡ h
    → h ≢ skipped
    → (vid : ℕ) × (handled (edit_packet buffer output vid size) ≡ h)
tag_with-handled (pos zero) buffer output size h e ne = absurd (ne (sym e))
tag_with-handled (pos (suc t)) buffer output size h e ne = (to_uint16 (pos (suc t)), e)
tag_with-handled (negsuc t) buffer output size h e ne = (to_uint16 (negsuc t), e)

-- Only long enough IPv4 frames reach the lookup.
tag_packet-lookup :
    (rules : List TaggerRule) (p stale output : Bytes) (h : Handled)
    → AreBytes p
    → tag_packet rules (over p stale) output (length p) ≡ h
    → h ≢ skipped
    → (34 ≤ length p)
      × (be16 p 12 ≡ eth_p_ip)
      × (tag : ℤ) × (tag_with tag (over p stale) output (length p) ≡ h)
unfolding tag_packet
tag_packet-lookup rules p stale output h bytes e ne = elim (Bool-cases (ltb (length p) 34)) [
  | inl short ↦ absurd (ne (sym (rw short at e)))
  | inr whole ↦
      let long : 34 ≤ length p = ground arith in
      let e' = rw (whole, get_ip-over p stale bytes long) at e in
      elim (Bool-cases (be16 p 12 == eth_p_ip)) [
        | inr other ↦ absurd (ne (sym (rw other at e')))
        | inl ip ↦ elim (Bool-cases (be32 p 30 == 0)) [
          | inl no_address ↦ absurd (ne (sym (rw (ip, no_address) at e')))
          | inr found ↦ (long, ground arith, get_tag (be32 p 30) rules, rw (ip, found) at e')
        ]
      ]
]

pub length-tagged : (p : Bytes) (tci : ℕ) → 12 ≤ length p → length p + 4 ≡ length (tagged p tci)
length-tagged p tci long = omega (
  arith,
  length-append (take 12 p) (0x81 ∷ 0x00 ∷ tci / 256 ∷ tci % 256 ∷ drop 12 p),
  length-macs p long,
  length-drop 12 p,
)

-- The bytes that stand in the output buffer behind an edited frame.
abbrev pub edited : Bytes → Bytes → ℕ → Bytes
edited p output tci = tagged p tci ++ drop (length p + 4) output

edit_packet-edited :
    (p stale output : Bytes) (vid : ℕ)
    → 34 ≤ length p
    → length output ≡ ethernet_frame_length
    → length p ≤ 1518
    → edit_packet (over p stale) output vid (length p)
      ≡ some (length p + 4, edited p output (vid % 2 ^ 12))
edit_packet-edited p stale output vid long size fits =
    edit_packet-fits (over p stale) output vid (length p) (omega arith)
      (omega (arith, length-append p (drop (length p) stale))) (omega arith) (omega arith)
    ∙ rw (take-append p (drop (length p) stale))

pub length-edited :
    (p output : Bytes) (tci : ℕ)
    → 12 ≤ length p
    → length p + 4 ≤ length output
    → length (edited p output tci) ≡ length output
length-edited p output tci long fits = omega (
  arith,
  length-tagged p tci long,
  length-append (tagged p tci) (drop (length p + 4) output),
  length-drop (length p + 4) output,
)

-- What such a buffer says of the frame.
pub untagged-edited :
    (p output : Bytes) (tci : ℕ)
    → 12 ≤ length p
    → (be16 (edited p output tci) 12 ≡ 0x8100)
      × (untagged (take (length p + 4) (edited p output tci)) ≡ p)
untagged-edited p output tci long =
    let head : take (length p + 4) (edited p output tci) ≡ tagged p tci =
      take-append_eq (length p + 4) (tagged p tci) (drop (length p + 4) output)
        (length-tagged p tci long) in
    (be16-tagged p (drop (length p + 4) output) tci long, rw head (untagged-tagged p tci long))

Handled-cases : (h : Handled) → (h ≡ skipped) ⊎ (h ≢ skipped)
Handled-cases skipped = inl refl
Handled-cases (sent n out) = inr (λ e. cc)
Handled-cases overrun = inr (λ e. cc)

-- A frame that fits is dropped, or sent on with a header.
pub tag_packet_cases :
    (rules : List TaggerRule) (p stale output : Bytes)
    → AreBytes p
    → length output ≡ ethernet_frame_length
    → length p ≤ 1518
    → (tag_packet rules (over p stale) output (length p) ≡ skipped)
      ⊎ ((34 ≤ length p)
          × (be16 p 12 ≡ eth_p_ip)
          × (tci : ℕ) × (tag_packet rules (over p stale) output (length p)
              ≡ sent (length p + 4) (edited p output tci)))
tag_packet_cases rules p stale output bytes size fits =
    let h = tag_packet rules (over p stale) output (length p) in
    elim (Handled-cases h) [
      | inl e ↦ inl e
      | inr ne ↦
          let (long, ip, tag, found) = tag_packet-lookup rules p stale output h bytes refl ne in
          let (vid, same) = tag_with-handled tag (over p stale) output (length p) h found ne in
          let whole = edit_packet-edited p stale output vid long size fits in
          inr (long, ip, vid % 2 ^ 12, sym same ∙ rw whole)
    ]

-- With an output buffer of 1522 bytes, and whatever the rules are: where the tagger sends on a
-- frame of at most 1522 bytes, that was an IPv4 frame of at most 1518 bytes, and what is sent is
-- four bytes longer; its TPID is 0x8100, and without its 802.1Q header it is the frame that came
-- in.
pub tag_packet-untagged :
    (rules : List TaggerRule) (p stale output out : Bytes) (n : ℕ)
    → AreBytes p
    → length output ≡ ethernet_frame_length
    → length p ≤ ethernet_frame_length
    → tag_packet rules (over p stale) output (length p) ≡ sent n out
    → (be16 p 12 ≡ eth_p_ip)
      × (length p ≤ 1518)
      × (n ≡ length p + 4)
      × (be16 out 12 ≡ 0x8100)
      × (untagged (take n out) ≡ p)
tag_packet-untagged rules p stale output out n bytes size small e = elim (dec_lt 1518 (length p)) [
  | yes over_long ↦
      let ne : sent n out ≢ skipped = λ q. cc in
      let (long, ip, tag, found) = tag_packet-lookup rules p stale output (sent n out) bytes e ne in
      let (vid, same) =
        tag_with-handled tag (over p stale) output (length p) (sent n out) found ne in
      let fault =
        edit_packet-overrun (over p stale) output vid (length p)
          (omega (arith, length-append p (drop (length p) stale))) (omega arith) (omega arith)
          (omega arith) in
      absurd (cc (rw fault at same))
  | no fits ↦ elim (tag_packet_cases rules p stale output bytes size (omega arith)) [
    | inl dropped ↦ absurd (cc)
    | inr (long, ip, tci, same) ↦
        let n_eq : n ≡ length p + 4 = cc in
        let out_eq : out ≡ edited p output tci = cc in
        let back = untagged-edited p output tci (omega arith) in
        (ip, omega arith, n_eq, rw out_eq back.0, rw (n_eq, out_eq) back.1)
  ]
]
