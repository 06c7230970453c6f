-- ===== src/IpModifier/Types.antt =====
-- nodes/src/ip_modifier_node.c: the type field that `is_ip_packet` looks at.
use vlan_tagger.Prelude.{ℕ, ◌^◌, ◌<◌, ◌≡◌, inl, inr, false, Bool-cases, ltb, ◌==◌, arith, Bytes}
use vlan_tagger.Tagger.Frames.{be16, AreBytes, at-lt}
use vlan_tagger.IpModifier.{to_short, is_const, is_ip_packet}

-- No `short` is 0x8100.
pub to_short-vlan : (n : ℕ) → n < 2 ^ 16 → is_const (to_short n) 0x8100 ≡ false
to_short-vlan n h = elim (Bool-cases (ltb n (2 ^ 15))) [
  | inl low ↦ rw low (ground arith)
  | inr high ↦ rw high
]

to_short-ip : (n : ℕ) → n < 2 ^ 16 → is_const (to_short n) 0x0800 ≡ (n == 0x0800)
to_short-ip n h = elim (Bool-cases (ltb n (2 ^ 15))) [
  | inl low ↦ rw low
  | inr high ↦ rw high (ground arith)
]

-- `is_ip_packet` accepts a frame just where its type field at byte 12 is 0x0800: the branch for a frame
-- with a VLAN header is never taken, and no such frame is accepted.
pub is_ip_packet-be16 :
    (buffer : Bytes) → AreBytes buffer → is_ip_packet buffer ≡ (be16 buffer 12 == 0x0800)
unfolding is_ip_packet
is_ip_packet-be16 buffer h =
    let small : be16 buffer 12 < 2 ^ 16 = omega (arith, at-lt buffer 12 h, at-lt buffer 13 h) in
    rw (to_short-vlan (be16 buffer 12) small) (to_short-ip (be16 buffer 12) small)
