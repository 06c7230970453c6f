-- ===== src/IpModifier/Verifies.antt =====
-- nodes/src/ip_modifier_node.c: the checksum that `modify_destination_ip` leaves.
use vlan_tagger.Prelude.{
  ℕ, suc, ◌+◌, ◌-◌, ◌*◌, ◌/◌, ◌%◌, ◌^◌, ◌≤◌, ◌<◌, ◌≡◌, ◌≢◌, ap, ◌∙◌, sym, arith, Bytes, length, set,
  length-set, get_or-set_self, get_or-set_ne,
}
use vlan_tagger.Frame.{at}
use vlan_tagger.IpModifier.{word_of}
use vlan_tagger.IpModifier.Carries.{ones_sum}
use vlan_tagger.IpModifier.Sums.{header_sum, header_sum-add, header_sum-same}
use vlan_tagger.IpModifier.Rewrites.{
  copied, zeroed, rewritten, with_checksum, header_words, sum_of, length-copied, length-zeroed,
}

-- A byte that is neither of the checksum's two.
pub apart :
    (c : Bytes) (o hi lo i : ℕ) → i ≢ o + 10 → i ≢ o + 11 → at (with_checksum c o hi lo) i ≡ at c i
apart c o hi lo i n10 n11 =
    get_or-set_ne (set c (o + 10) hi) (o + 11) i lo 0 (λ e. n11 (sym e))
    ∙ get_or-set_ne c (o + 10) i hi 0 (λ e. n10 (sym e))

first_byte :
    (c : Bytes) (o hi lo : ℕ) → o + 11 < length c → at (with_checksum c o hi lo) (o + 10) ≡ hi
first_byte c o hi lo h =
    get_or-set_ne (set c (o + 10) hi) (o + 11) (o + 10) lo 0 (λ e. absurd (omega arith))
    ∙ get_or-set_self c (o + 10) hi 0 (omega arith)

second_byte :
    (c : Bytes) (o hi lo : ℕ) → o + 11 < length c → at (with_checksum c o hi lo) (o + 11) ≡ lo
second_byte c o hi lo h =
    get_or-set_self (set c (o + 10) hi) (o + 11) lo 0 (omega (arith, length-set c (o + 10) hi))

-- The sum of a header of at least 12 bytes without its checksum.
other_words : Bytes → ℕ → ℕ → ℕ
other_words c o n = header_sum c o 5 + header_sum c (o + 12) (n - 6)

three_parts :
    (d : Bytes) (o n : ℕ)
    → 6 ≤ n
    → header_sum d o n
      ≡ header_sum d o 5 + (word_of (at d (o + 10)) (at d (o + 11)) + header_sum d (o + 12) (n - 6))
three_parts d o n long =
    let parts : n ≡ 5 + suc (n - 6) = omega arith in
    let there : o + 2 * 5 ≡ o + 10 = omega arith in
    let next : o + 10 + 1 ≡ o + 11 = omega arith in
    let behind : o + 10 + 2 ≡ o + 12 = omega arith in
    let split = header_sum-add d 5 (suc (n - 6)) o in
    ap (header_sum d o) parts
    ∙ split
    ∙ ap (λ m. header_sum d o 5 + m)
        (ap (λ j. header_sum d j (suc (n - 6))) there
          ∙ ap (λ j. word_of (at d (o + 10)) (at d j) + header_sum d (o + 10 + 2) (n - 6)) next
          ∙ ap (λ j. word_of (at d (o + 10)) (at d (o + 11)) + header_sum d j (n - 6)) behind)

header_sum-with_checksum :
    (c : Bytes) (o n hi lo : ℕ)
    → 6 ≤ n
    → o + 11 < length c
    → header_sum (with_checksum c o hi lo) o n ≡ other_words c o n + word_of hi lo
unfolding other_words
header_sum-with_checksum c o n hi lo long inside =
    let d = with_checksum c o hi lo in
    let low : header_sum d o 5 ≡ header_sum c o 5 =
      header_sum-same d c 5 o
        (λ j h h'. apart c o hi lo j (λ e. absurd (omega arith)) (λ e. absurd (omega arith))) in
    let high : header_sum d (o + 12) (n - 6) ≡ header_sum c (o + 12) (n - 6) =
      header_sum-same d c (n - 6) (o + 12)
        (λ j h h'. apart c o hi lo j (λ e. absurd (omega arith)) (λ e. absurd (omega arith))) in
    three_parts d o n long
    ∙ rw (low, high, first_byte c o hi lo inside, second_byte c o hi lo inside) (omega arith)

-- A sum and the complement of its one's complement sum.
complement_sum : (s : ℕ) → ones_sum (s + (65535 - ones_sum s)) ≡ 65535
complement_sum s = ground arith

-- The complement's low 16 bits.
complement_word :
    (y : ℕ)
    → y < 2 ^ 16
    → let x : ℕ = 2 ^ 32 - 1 - y in word_of (x / 256 % 256) (x % 256) ≡ 65535 - y
complement_word y h = omega arith

ones_sum-lt : (s : ℕ) → ones_sum s < 2 ^ 16
ones_sum-lt s = ground arith

zeroed_sum :
    (z : Bytes) (o n : ℕ)
    → 6 ≤ n
    → at z (o + 10) ≡ 0
    → at z (o + 11) ≡ 0
    → header_sum z o n ≡ other_words z o n
unfolding other_words
zeroed_sum z o n long e10 e11 = three_parts z o n long ∙ rw (e10, e11) (omega arith)

module _ (b : Bytes) (o new_ip : ℕ) (room : o + 60 ≤ length b) (long : 5 ≤ at b o % 16) where
  many : 6 ≤ header_words b o
  many = omega arith

  words_sum :
      header_sum (rewritten b o new_ip) o (header_words b o)
      ≡ header_sum (zeroed b o new_ip) o (header_words b o) + (65535 - sum_of b o new_ip)
  words_sum =
      let z = zeroed b o new_ip in
      let y : ℕ = sum_of b o new_ip in
      let x : ℕ = 2 ^ 32 - 1 - y in
      let n = header_words b o in
      omega (
        arith,
        header_sum-with_checksum z o n (x / 256 % 256) (x % 256) many
            (omega (arith, length-zeroed b o new_ip room)),
        zeroed_sum z o n many
            (first_byte (copied b o new_ip) o 0 0 (omega (arith, length-copied b o new_ip room)))
            (second_byte (copied b o new_ip) o 0 0 (omega (arith, length-copied b o new_ip room))),
        complement_word y (ones_sum-lt (header_sum z o n)),
      )

  pub rewritten_verifies : ones_sum (header_sum (rewritten b o new_ip) o (header_words b o)) ≡ 65535
  rewritten_verifies =
      ap ones_sum words_sum ∙ complement_sum (header_sum (zeroed b o new_ip) o (header_words b o))
