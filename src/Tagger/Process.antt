-- ===== src/Tagger/Process.antt =====
-- nodes/src/tagger_node.c: what the body of `tagger_node_process` does with each frame. A frame `p`
-- stands at the start of a buffer that holds older bytes behind it.
use vlan_tagger.Prelude.{
  ℕ, zero, suc, ◌+◌, ◌%◌, ◌^◌, ◌≤◌, ◌<◌, ◌≡◌, ◌≢◌, refl, ap, ◌∙◌, ◌⊎◌, inl, inr, Bool-cases, true,
  false, List, ◌++◌, map, some, arith, ltb, ◌==◌, pos, Bytes, length, drop, get_elem?, All,
  length-append, take-append,
}
use vlan_tagger.Config.{TagRule}
use vlan_tagger.Config.Valid.{In, AreApart}
use vlan_tagger.Frame.{ethernet_frame_length, eth_p_ip, over}
use vlan_tagger.Tagger.Rules.{get_tag-In, get_tag-none}
use vlan_tagger.Tagger.Frames.{
  tagged, be16, be32, AreBytes, edit_packet-fits, edit_packet-overrun, get_ip-over,
}
use vlan_tagger.Tagger.{
  TaggerRule, to_host, get_tag, edit_packet, skipped, sent, overrun, handled, tag_with, tag_packet,
}

-- The frame is an IPv4 packet, with a whole header and a destination address other than 0.0.0.0.
pub record IsIpv4 (p : Bytes) : Type 0 where
  pub bytes : AreBytes p
  pub long : 34 ≤ length p
  pub ether_type : be16 p 12 ≡ eth_p_ip
  pub address : be32 p 30 ≢ 0

-- The rule at `i` gives the frame the VLAN `vid`.
pub record Gives (rs : List TagRule) (i : ℕ) (p : Bytes) (vid : ℕ) : Type 0 where
  pub rule : TagRule
  pub at_i : get_elem? rs i ≡ some rule
  pub holds : In (be32 p 30) rule
  pub tag : rule.tag ≡ pos vid
  pub vid_pos : vid ≢ 0
  pub vid_small : vid < 2 ^ 12

tag_packet-Ipv4 :
    (rules : List TaggerRule) (p stale output : Bytes)
    → IsIpv4 p
    → tag_packet rules (over p stale) output (length p)
      ≡ tag_with (get_tag (be32 p 30) rules) (over p stale) output (length p)
unfolding tag_packet
tag_packet-Ipv4 rules p stale output v =
    let whole : ltb (length p) 34 ≡ false = ground (arith, v.long) in
    let ip : (be16 p 12 == eth_p_ip) ≡ true = ground (arith, v.ether_type) in
    let found : (be32 p 30 == 0) ≡ false = ground (arith, v.address) in
    rw (whole, get_ip-over p stale v.bytes v.long, ip, found)

lookup :
    (rs : List TagRule) (i : ℕ) (p : Bytes) {vid : ℕ}
    → AreApart rs
    → Gives rs i p vid
    → get_tag (be32 p 30) (map to_host rs) ≡ pos vid
lookup rs i p apart g = get_tag-In rs i (be32 p 30) g.rule apart g.at_i g.holds ∙ g.tag

tag_with-pos :
    (vid : ℕ) (buffer output : Bytes) (n : ℕ)
    → vid ≢ 0
    → tag_with (pos vid) buffer output n ≡ handled (edit_packet buffer output (vid % 2 ^ 16) n)
tag_with-pos zero buffer output n ne = absurd (ne refl)
tag_with-pos (suc vid) buffer output n ne = refl

-- With an output buffer of 1522 bytes: an IPv4 frame of 34 to 1518 bytes whose destination is not
-- 0.0.0.0 and lies in the range of a rule for a VLAN from 1 to 4095, the rules apart, is sent on
-- with four bytes more: the same frame with the 802.1Q header of that rule's VLAN between the
-- addresses and the rest.
pub tag_packet-sent :
    (rs : List TagRule) (i vid : ℕ) (p stale output : Bytes)
    → AreApart rs
    → IsIpv4 p
    → Gives rs i p vid
    → length output ≡ ethernet_frame_length
    → length p ≤ 1518
    → tag_packet (map to_host rs) (over p stale) output (length p)
      ≡ sent (length p + 4) (tagged p vid ++ drop (length p + 4) output)
tag_packet-sent rs i vid p stale output apart v g size fits =
    tag_packet-Ipv4 (map to_host rs) p stale output v
    ∙ rw
        (
          lookup rs i p apart g,
          tag_with-pos vid (over p stale) output (length p) g.vid_pos,
          edit_packet-fits (over p stale) output (vid % 2 ^ 16) (length p) (omega (arith, v.long))
              (omega (arith, length-append p (drop (length p) stale))) (omega arith) (omega arith),
          take-append p (drop (length p) stale),
        )
        (ap (λ t. sent (length p + 4) (tagged p t ++ drop (length p + 4) output))
          (omega (arith, g.vid_small)))

-- With an output buffer of 1522 bytes: a longer IPv4 frame, of more than 1518 bytes, whose
-- destination is not 0.0.0.0 and lies in the range of a rule for a VLAN from 1 to 4095, the rules
-- apart, makes the code write behind the end of its output buffer.
pub tag_packet-overrun :
    (rs : List TagRule) (i vid : ℕ) (p stale output : Bytes)
    → AreApart rs
    → IsIpv4 p
    → Gives rs i p vid
    → length output ≡ ethernet_frame_length
    → 1518 < length p
    → tag_packet (map to_host rs) (over p stale) output (length p) ≡ overrun
tag_packet-overrun rs i vid p stale output apart v g size short =
    tag_packet-Ipv4 (map to_host rs) p stale output v
    ∙ rw (
      lookup rs i p apart g,
      tag_with-pos vid (over p stale) output (length p) g.vid_pos,
      edit_packet-overrun (over p stale) output (vid % 2 ^ 16) (length p)
          (omega (arith, length-append p (drop (length p) stale))) (omega arith) (omega arith)
          (omega arith),
    )

-- A frame goes no further if it has fewer than 34 bytes, if it is no IPv4 packet (a frame with a VLAN
-- header among them), if its destination is 0.0.0.0, even where a rule holds that address, or if no rule
-- holds its destination.
pub tag_packet-skipped :
    (rs : List TagRule) (p stale output : Bytes)
    → AreBytes p
    → (length p < 34) ⊎ (be16 p 12 ≢ eth_p_ip) ⊎ (be32 p 30 ≡ 0) ⊎ All (λ r. ¬ In (be32 p 30) r) rs
    → tag_packet (map to_host rs) (over p stale) output (length p) ≡ skipped
unfolding tag_packet
tag_packet-skipped rs p stale output bytes why = elim (Bool-cases (ltb (length p) 34)) [
  | inl short ↦ rw short
  | inr whole ↦
      rw (whole, get_ip-over p stale bytes (ground arith))
        (elim (Bool-cases (be16 p 12 == eth_p_ip)) [
          | inr other ↦ rw other
          | inl ip ↦ rw ip (elim (Bool-cases (be32 p 30 == 0)) [
            | inl zero_address ↦ rw zero_address
            | inr found ↦
                let unheld : All (λ r. ¬ In (be32 p 30) r) rs = elim why [
                  | inl short ↦ absurd (ground arith)
                  | inr (inl other) ↦ absurd (ground arith)
                  | inr (inr (inl no_address)) ↦ absurd (ground arith)
                  | inr (inr (inr none_holds)) ↦ none_holds
                ] in
                rw (found, get_tag-none rs (be32 p 30) unheld)
          ])
        ])
]
