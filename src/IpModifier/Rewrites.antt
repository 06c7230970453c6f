-- ===== src/IpModifier/Rewrites.antt =====
-- nodes/src/ip_modifier_node.c: what `modify_destination_ip` changes in the buffer.
use vlan_tagger.Prelude.{
  leb, true, ℕ, zero, suc, ◌+◌, ◌-◌, ◌*◌, ◌/◌, ◌%◌, ◌^◌, ◌≤◌, ◌<◌, ◌≡◌, ap, refl, ◌∙◌, some, arith,
  lt→ltb, Bytes, length, set, get_or, take, drop, [], ◌∷◌, ◌++◌, length-set, length-take,
  length-drop, length-append,
}
use vlan_tagger.Frame.{at, memcpy_at, ◌>>=◌, get_or-append}
use vlan_tagger.IpModifier.{write, fold_carries, enough, address_bytes, modify_at}
use vlan_tagger.IpModifier.Carries.{ones_sum, fold_carries-ones_sum}
use vlan_tagger.IpModifier.Sums.{header_sum, read-at, sum_words-header_sum, header_sum-le}

-- The buffer after each of the three changes, with the header at `o`.
abbrev pub copied : Bytes → ℕ → ℕ → Bytes
copied b o new_ip = take (o + 16) b ++ (address_bytes new_ip ++ drop (o + 16 + 4) b)

abbrev pub with_checksum : Bytes → ℕ → ℕ → ℕ → Bytes
with_checksum b o hi lo = set (set b (o + 10) hi) (o + 11) lo

abbrev pub zeroed : Bytes → ℕ → ℕ → Bytes
zeroed b o new_ip = with_checksum (copied b o new_ip) o 0 0

-- The number of words of the header, and their sum where the checksum is 0.
abbrev pub header_words : Bytes → ℕ → ℕ
header_words b o = at b o % 16 * 4 / 2

abbrev pub sum_of : Bytes → ℕ → ℕ → ℕ
sum_of b o new_ip = ones_sum (header_sum (zeroed b o new_ip) o (header_words b o))

-- The buffer at the end.
abbrev pub rewritten : Bytes → ℕ → ℕ → Bytes
rewritten b o new_ip =
    let x : ℕ = 2 ^ 32 - 1 - sum_of b o new_ip in
    with_checksum (zeroed b o new_ip) o (x / 256 % 256) (x % 256)

-- Bytes behind a first part, and behind a number of bytes that were dropped.
get_or-append_at : (p s : Bytes) (i j : ℕ) → j ≡ length p + i → get_or (p ++ s) j 0 ≡ get_or s i 0
get_or-append_at [] s i j h = ap (λ k. get_or s k 0) (omega arith)
get_or-append_at (c ∷ p) s i zero h = absurd (omega arith)
get_or-append_at (c ∷ p) s i (suc j) h = get_or-append_at p s i j (omega arith)

get_or-take : (b : Bytes) (n i : ℕ) → i < n → get_or (take n b) i 0 ≡ get_or b i 0
get_or-take b zero i h = absurd (omega arith)
get_or-take [] (suc n) i h = refl
get_or-take (c ∷ b) (suc n) zero h = refl
get_or-take (c ∷ b) (suc n) (suc i) h = get_or-take b n i (omega arith)

get_or-drop_at : (b : Bytes) (n i j : ℕ) → j ≡ n + i → get_or (drop n b) i 0 ≡ get_or b j 0
get_or-drop_at b zero i j h = ap (λ k. get_or b k 0) (omega arith)
get_or-drop_at [] (suc n) i j h = refl
get_or-drop_at (c ∷ b) (suc n) i zero h = absurd (omega arith)
get_or-drop_at (c ∷ b) (suc n) i (suc j) h = get_or-drop_at b n i j (omega arith)

module _ (b : Bytes) (o new_ip : ℕ) (room : o + 60 ≤ length b) where
  before_length : length (take (o + 16) b) ≡ o + 16
  before_length = omega (arith, length-take (o + 16) b)

  pub length-copied : length (copied b o new_ip) ≡ length b
  length-copied = omega (
    arith,
    before_length,
    length-append (take (o + 16) b) (address_bytes new_ip ++ drop (o + 16 + 4) b),
    length-drop (o + 16 + 4) b,
  )

  pub at-copied_lt : (i : ℕ) → i < o + 16 → at (copied b o new_ip) i ≡ at b i
  at-copied_lt i h =
      get_or-append (take (o + 16) b) (address_bytes new_ip ++ drop (o + 16 + 4) b) i
        (omega (arith, before_length))
      ∙ get_or-take b (o + 16) i h

  at-copied_from :
      (i : ℕ)
      → at (copied b o new_ip) (o + 16 + i) ≡ at (address_bytes new_ip ++ drop (o + 16 + 4) b) i
  at-copied_from i =
      get_or-append_at (take (o + 16) b) (address_bytes new_ip ++ drop (o + 16 + 4) b) i
        (o + 16 + i) (omega (arith, before_length))

  pub at-copied_in :
      (k : ℕ) → k < 4 → at (copied b o new_ip) (o + 16 + k) ≡ at (address_bytes new_ip) k
  at-copied_in k h =
      at-copied_from k ∙ get_or-append (address_bytes new_ip) (drop (o + 16 + 4) b) k h

  pub at-copied_gt : (i : ℕ) → o + 20 ≤ i → at (copied b o new_ip) i ≡ at b i
  at-copied_gt i h =
      let split : i ≡ o + 16 + (i - (o + 16)) = omega arith in
      ap (at (copied b o new_ip)) split
      ∙ at-copied_from (i - (o + 16))
      ∙ get_or-append_at (address_bytes new_ip) (drop (o + 16 + 4) b) (i - (o + 20)) (i - (o + 16))
          (omega arith)
      ∙ get_or-drop_at b (o + 16 + 4) (i - (o + 20)) i (omega arith)

write-set : (b : Bytes) (i c : ℕ) → i < length b → write b i c ≡ some (set b i c)
write-set b i c h = rw (lt→ltb i (length b) h)

module _ (b : Bytes) (o new_ip : ℕ) (room : o + 60 ≤ length b) where
  memcpy_at-copied : memcpy_at b (o + 16) (address_bytes new_ip) 4 ≡ some (copied b o new_ip)
  unfolding memcpy_at
  memcpy_at-copied = let inside : leb (o + 16 + 4) (length b) ≡ true = ground arith in rw inside

  pub length-with_checksum :
      (c : Bytes) (hi lo : ℕ) → length c ≡ length b → length (with_checksum c o hi lo) ≡ length b
  length-with_checksum c hi lo h =
      length-set (set c (o + 10) hi) (o + 11) lo ∙ length-set c (o + 10) hi ∙ h

  -- The two writes of a checksum.
  stores :
      (c : Bytes) (hi lo : ℕ)
      → length c ≡ length b
      → (write c (o + 10) hi >>= λ c'. write c' (o + 11) lo) ≡ some (with_checksum c o hi lo)
  stores c hi lo h =
      rw (write-set c (o + 10) hi (omega arith))
        (write-set (set c (o + 10) hi) (o + 11) lo (omega (arith, length-set c (o + 10) hi)))

  sums :
      fold_carries enough (0 + header_sum (zeroed b o new_ip) o (header_words b o))
      ≡ some (sum_of b o new_ip)
  sums =
      ap (fold_carries enough) (omega arith)
      ∙ fold_carries-ones_sum (header_sum (zeroed b o new_ip) o (header_words b o))
          (omega (arith, header_sum-le (zeroed b o new_ip) (header_words b o) o))

  pub length-zeroed : length (zeroed b o new_ip) ≡ length b
  length-zeroed = length-with_checksum (copied b o new_ip) 0 0 (length-copied b o new_ip room)

  -- With room for the longest header behind `o`, no access is outside the buffer.
  pub modify_at-rewritten : modify_at b o new_ip ≡ some (rewritten b o new_ip)
  unfolding modify_at
  modify_at-rewritten =
      let c1 = copied b o new_ip in
      let c3 = zeroed b o new_ip in
      let x : ℕ = 2 ^ 32 - 1 - sum_of b o new_ip in
      let same : at c1 o ≡ at b o = at-copied_lt b o new_ip room o (omega arith) in
      let l1 : length c1 ≡ length b = length-copied b o new_ip room in
      let l2 : length (set c1 (o + 10) 0) ≡ length b = length-set c1 (o + 10) 0 ∙ l1 in
      rw
        (
          memcpy_at-copied,
          read-at c1 o (omega arith),
          same,
          write-set c1 (o + 10) 0 (omega arith),
          write-set (set c1 (o + 10) 0) (o + 11) 0 (omega arith),
          sum_words-header_sum c3 (header_words b o) o 0 (omega (arith, length-zeroed))
              (omega arith),
          sums,
        )
        (stores c3 (x / 256 % 256) (x % 256) length-zeroed)
