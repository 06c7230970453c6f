-- ===== src/IpModifier/Carries.antt =====
-- nodes/src/ip_modifier_node.c: the loop that folds the carries of the checksum.
use vlan_tagger.Prelude.{
  ℕ, zero, suc, ap, ◌∙◌, ◌+◌, ◌-◌, ◌/◌, ◌%◌, ◌^◌, ◌<◌, ◌≡◌, inl, inr, true, false, Bool-cases, some,
  ◌==◌, if◌then◌else◌, arith,
}
use vlan_tagger.IpModifier.{fold_carries, enough}

-- The sum in one's complement: 0 only for 0, and otherwise between 1 and 65535.
abbrev pub ones_sum : ℕ → ℕ
ones_sum x = if x == 0 then 0 else (x - 1) % 65535 + 1

-- One round keeps it.
ones_sum_round : (x : ℕ) → ones_sum (x % 2 ^ 16 + x / 2 ^ 16) ≡ ones_sum x
ones_sum_round x = ground arith

no_carry : (x : ℕ) → x / 2 ^ 16 ≡ 0 → ones_sum x ≡ x
no_carry x h = ground arith

-- Without a carry the loop ends at once.
fold_end : (fuel x : ℕ) → (x / 2 ^ 16 == 0) ≡ true → fold_carries fuel x ≡ some (ones_sum x)
unfolding fold_carries
fold_end zero x h = rw (h, no_carry x (ground arith))
fold_end (suc fuel) x h = rw (h, no_carry x (ground arith))

fold_next :
    (fuel x : ℕ)
    → x < 2 ^ 32
    → (x / 2 ^ 16 == 0) ≡ false
    → fold_carries (suc fuel) x ≡ fold_carries fuel (x % 2 ^ 16 + x / 2 ^ 16)
unfolding fold_carries
fold_next fuel x h more =
    let fits : (x % 2 ^ 16 + x / 2 ^ 16) % 2 ^ 32 ≡ x % 2 ^ 16 + x / 2 ^ 16 = omega arith in
    rw (more, fits)

after_one : (y : ℕ) → y < 2 ^ 17 - 1 → fold_carries 1 y ≡ some (ones_sum y)
after_one y h = elim (Bool-cases (y / 2 ^ 16 == 0)) [
  | inl done ↦ fold_end 1 y done
  | inr more ↦
      let z = y % 2 ^ 16 + y / 2 ^ 16 in
      fold_next 0 y (omega arith) more ∙ fold_end 0 z (ground arith) ∙ ap some (ones_sum_round y)
]

-- The loop ends after at most two rounds on every 32-bit number, with the number that its 16-bit words
-- give in one's complement.
pub fold_carries-ones_sum : (x : ℕ) → x < 2 ^ 32 → fold_carries enough x ≡ some (ones_sum x)
fold_carries-ones_sum x h = elim (Bool-cases (x / 2 ^ 16 == 0)) [
  | inl done ↦ fold_end enough x done
  | inr more ↦
      let y = x % 2 ^ 16 + x / 2 ^ 16 in
      fold_next 1 x h more ∙ after_one y (omega arith) ∙ ap some (ones_sum_round x)
]
