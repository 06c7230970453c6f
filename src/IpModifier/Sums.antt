-- ===== src/IpModifier/Sums.antt =====
-- nodes/src/ip_modifier_node.c: the sum of the header's words.
use vlan_tagger.Prelude.{
  ℕ, zero, suc, ◌+◌, ◌*◌, ◌%◌, ◌^◌, ◌≤◌, ◌<◌, ◌≡◌, ap, refl, ◌∙◌, some, arith, Bytes, length, [],
  ◌∷◌,
}
use vlan_tagger.Frame.{at}
use vlan_tagger.IpModifier.{read, word_of, sum_words}

-- The 16-bit words in network order from byte `i` on, added up.
abbrev pub header_sum : Bytes → ℕ → ℕ → ℕ
header_sum buffer i zero = 0
header_sum buffer i (suc n) =
    (at buffer i * 256 + at buffer (i + 1)) % 2 ^ 16 + header_sum buffer (i + 2) n

pub read-at : (buffer : Bytes) (i : ℕ) → i < length buffer → read buffer i ≡ some (at buffer i)
read-at [] i h = absurd (omega arith)
read-at (c ∷ cs) zero h = refl
read-at (c ∷ cs) (suc i) h = read-at cs i (omega arith)

pub header_sum-le : (buffer : Bytes) (n i : ℕ) → header_sum buffer i n ≤ n * 65535
header_sum-le buffer zero i = omega arith
header_sum-le buffer (suc n) i = omega (arith, header_sum-le buffer n (i + 2))

-- Inside the buffer, and below 2^32, the loop returns the sum.
pub sum_words-header_sum :
    (buffer : Bytes) (n i checksum : ℕ)
    → i + 2 * n ≤ length buffer
    → checksum + n * 65535 < 2 ^ 32
    → sum_words buffer i n checksum ≡ some (checksum + header_sum buffer i n)
unfolding sum_words
sum_words-header_sum buffer zero i checksum h small = ap some (omega arith)
sum_words-header_sum buffer (suc n) i checksum h small =
    let w = word_of (at buffer i) (at buffer (i + 1)) in
    let fits : (checksum + w) % 2 ^ 32 ≡ checksum + w = omega arith in
    rw (read-at buffer i (omega arith), read-at buffer (i + 1) (omega arith), fits)
      (sum_words-header_sum buffer n (i + 2) (checksum + w) (omega arith) (omega arith)
        ∙ ap some (omega arith))

-- The words of two parts, one behind the other.
pub header_sum-add :
    (buffer : Bytes) (m n i : ℕ)
    → header_sum buffer i (m + n) ≡ header_sum buffer i m + header_sum buffer (i + 2 * m) n
header_sum-add buffer zero n i =
    let none_before : 0 + n ≡ n = omega arith in
    let same : i + 2 * 0 ≡ i = omega arith in rw (none_before, same) (omega arith)
header_sum-add buffer (suc m) n i =
    let same : i + 2 + 2 * m ≡ i + 2 * suc m = omega arith in
    let later : suc m + n ≡ suc (m + n) = omega arith in
    rw (← same, later) (omega (arith, header_sum-add buffer m n (i + 2)))

-- The same bytes have the same sum.
pub header_sum-same :
    (b b' : Bytes) (n i : ℕ)
    → ((j : ℕ) → i ≤ j → j < i + 2 * n → at b j ≡ at b' j)
    → header_sum b i n ≡ header_sum b' i n
header_sum-same b b' zero i same = refl
header_sum-same b b' (suc n) i same = rw (
  same i (omega arith) (omega arith),
  same (i + 1) (omega arith) (omega arith),
  header_sum-same b b' n (i + 2) (λ j h h'. same j (omega arith) (omega arith)),
)
