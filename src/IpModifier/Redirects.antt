-- ===== src/IpModifier/Redirects.antt =====
-- nodes/src/ip_modifier_node.c: the buffer that `modify_destination_ip` leaves.
use vlan_tagger.Prelude.{
  ℕ, ◌+◌, ◌-◌, ◌*◌, ◌/◌, ◌%◌, ◌^◌, ◌≤◌, ◌<◌, ◌≡◌, ◌≢◌, ◌⊎◌, inl, inr, ap, ◌∙◌, some, arith, Bytes,
  length,
}
use vlan_tagger.Frame.{at}
use vlan_tagger.Tagger.Frames.{AreBytes, be16, at-lt}
use vlan_tagger.IpModifier.{ip_offset, address_bytes, modify_destination_ip}
use vlan_tagger.IpModifier.Carries.{ones_sum}
use vlan_tagger.IpModifier.Types.{to_short-vlan}
use vlan_tagger.IpModifier.Sums.{header_sum}
use vlan_tagger.IpModifier.Rewrites.{
  copied, zeroed, rewritten, with_checksum, header_words, sum_of, length-zeroed,
  length-with_checksum, at-copied_lt, at-copied_in, at-copied_gt, modify_at-rewritten,
}
use vlan_tagger.IpModifier.Verifies.{apart, rewritten_verifies}

-- The frame's header is behind its 14 bytes of Ethernet header.
ip_offset-14 : (buffer : Bytes) → AreBytes buffer → ip_offset buffer ≡ 14
ip_offset-14 buffer h =
    let small : be16 buffer 12 < 2 ^ 16 = omega (arith, at-lt buffer 12 h, at-lt buffer 13 h) in
    rw (to_short-vlan (be16 buffer 12) small)

-- What the destination address and the rest of the buffer are.
pub record Redirected (buffer : Bytes) (new_ip : ℕ) (b' : Bytes) : Type 0 where
  pub as_long : length b' ≡ length buffer
  pub address : (k : ℕ) → k < 4 → at b' (30 + k) ≡ at (address_bytes new_ip) k
  pub others : (i : ℕ) → (i < 24) ⊎ ((26 ≤ i) × (i < 30)) ⊎ (34 ≤ i) → at b' i ≡ at buffer i

module _ (buffer : Bytes) (new_ip : ℕ) (room : 74 ≤ length buffer) where
  result : Bytes
  result = rewritten buffer 14 new_ip

  result-at : (i : ℕ) → i ≢ 24 → i ≢ 25 → at result i ≡ at (copied buffer 14 new_ip) i
  unfolding result
  result-at i n24 n25 =
      let c = copied buffer 14 new_ip in
      let x : ℕ = 2 ^ 32 - 1 - sum_of buffer 14 new_ip in
      apart (with_checksum c 14 0 0) 14 (x / 256 % 256) (x % 256) i n24 n25
      ∙ apart c 14 0 0 i n24 n25

  result-Redirected : Redirected buffer new_ip result
  unfolding result
  result-Redirected = record {
    as_long =
        let x : ℕ = 2 ^ 32 - 1 - sum_of buffer 14 new_ip in
        length-with_checksum buffer 14 new_ip room (zeroed buffer 14 new_ip) (x / 256 % 256)
          (x % 256) (length-zeroed buffer 14 new_ip room);
    address = λ k h.
        result-at (30 + k) (λ e. absurd (omega arith)) (λ e. absurd (omega arith))
        ∙ at-copied_in buffer 14 new_ip room k h;
    others = λ i h. elim h [
      | inl low ↦
          result-at i (λ e. absurd (omega arith)) (λ e. absurd (omega arith))
          ∙ at-copied_lt buffer 14 new_ip room i (omega arith)
      | inr (inl (above, below)) ↦
          result-at i (λ e. absurd (omega arith)) (λ e. absurd (omega arith))
          ∙ at-copied_lt buffer 14 new_ip room i (omega arith)
      | inr (inr high) ↦
          result-at i (λ e. absurd (omega arith)) (λ e. absurd (omega arith))
          ∙ at-copied_gt buffer 14 new_ip room i high
    ];
  }

  modify-result : AreBytes buffer → modify_destination_ip buffer new_ip ≡ some result
  unfolding modify_destination_ip result
  modify-result h = rw (ip_offset-14 buffer h) (modify_at-rewritten buffer 14 new_ip room)

-- With room for the longest header behind the Ethernet header no access is outside the buffer: the new
-- address is the destination, the checksum's two bytes change, and the rest of the buffer stays.
pub modify_destination_ip-Redirected :
    (buffer : Bytes) (new_ip : ℕ)
    → 74 ≤ length buffer
    → AreBytes buffer
    → (b' : Bytes) × (modify_destination_ip buffer new_ip ≡ some b') × Redirected buffer new_ip b'
modify_destination_ip-Redirected buffer new_ip room h = (
  result buffer new_ip room,
  modify-result buffer new_ip room h,
  result-Redirected buffer new_ip room,
)

-- In a buffer with room for the longest header, whose header says that it has at least 20 bytes,
-- no access is outside the buffer, and `modify_destination_ip` leaves a header that a receiver accepts:
-- the sum of its 16-bit words in one's complement, the checksum with them, is 65535.
pub modify_destination_ip-verifies :
    (buffer : Bytes) (new_ip : ℕ)
    → 74 ≤ length buffer
    → AreBytes buffer
    → 5 ≤ at buffer 14 % 16
    → (b' : Bytes) × (modify_destination_ip buffer new_ip ≡ some b')
      × (ones_sum (header_sum b' 14 (at b' 14 % 16 * 2)) ≡ 65535)
modify_destination_ip-verifies buffer new_ip room h long =
    let same : at (result buffer new_ip room) 14 ≡ at buffer 14 =
      (result-Redirected buffer new_ip room).others 14 (inl (omega arith)) in
    let words : at (result buffer new_ip room) 14 % 16 * 2 ≡ header_words buffer 14 = omega arith in
    (
      result buffer new_ip room,
      modify-result buffer new_ip room h,
      unfold result in
          ap (λ n. ones_sum (header_sum (result buffer new_ip room) 14 n)) words
          ∙ rewritten_verifies buffer 14 new_ip room long,
    )
