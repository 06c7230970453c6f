-- ===== src/Config/Load/Bounds.antt =====
-- config_parser/config_parser.c: what `tag_rules_load` guarantees of the rules that it returns, and
-- of its error codes.
use vlan_tagger.Prelude.{
  ℕ, zero, suc, ◌+◌, ◌≤◌, ◌≡◌, refl, inl, inr, Bool, true, false, List, [], ◌∷◌, ◌++◌, Option,
  arith, ℤ, pos, negsuc, Bytes, length, length-append, Bool-cases,
}
use vlan_tagger.Config.Text.{c_string, line_editor}
use vlan_tagger.Config.Load.{
  Outcome, ok, err, fault, ◌>>=◌, or_fault, buffered, lines, is_skipped, ConfigFile, null_argument,
  not_opened, opened, load_rule, load_line, checked, load_lines, finish_load, tag_rules_load,
}
use vlan_tagger.Config.Valid.{Valid, validate_rules-Valid}
use vlan_tagger.Config.{TagRule, max_rules, validate_rules}

-- Inversion of a successful bind.
pub bind_ok {ℓ κ} :
    {A : Type ℓ} {B : Type κ} (first : Outcome A) (next : A → Outcome B) {end : B}
    → (first >>= next) ≡ ok end
    → (middle : A) × (first ≡ ok middle) × (next middle ≡ ok end)
bind_ok fault next e = cc
bind_ok (err code) next e = cc
bind_ok (ok middle) next e = (middle, refl, e)

nothing-Valid : Valid []
nothing-Valid = record { ordered = tt; apart = tt; tagged = tt }

ok-injective : {xs ys : List TagRule} → ok xs ≡ ok ys → ys ≡ xs
ok-injective e = cc

checked-eq-ok :
    (result : ℤ) (loaded : List TagRule) {rs : List TagRule}
    → checked result loaded ≡ ok rs
    → (result ≡ pos 0) × (rs ≡ loaded)
checked-eq-ok (pos zero) loaded e = (refl, cc)
checked-eq-ok (pos (suc n)) loaded e = absurd (cc)
checked-eq-ok (negsuc n) loaded e = absurd (cc)

finish_load-Valid :
    (read_fails close_fails : Bool) (loaded : List TagRule) {rs : List TagRule}
    → finish_load read_fails close_fails loaded ≡ ok rs
    → (rs ≡ loaded) × Valid rs
unfolding finish_load
finish_load-Valid true close_fails loaded e = absurd (cc)
finish_load-Valid false true loaded e = absurd (cc)
finish_load-Valid false false [] e = let same = ok-injective e in (same, rw same nothing-Valid)
finish_load-Valid false false (r ∷ loaded) {rs} e =
    let e' : checked (validate_rules (r ∷ loaded)) (r ∷ loaded) ≡ ok rs = ground arith in
    let (accepted, same) = checked-eq-ok (validate_rules (r ∷ loaded)) (r ∷ loaded) e' in
    (same, rw same (validate_rules-Valid (r ∷ loaded) accepted))

module _ (inet_aton : Bytes → Option ℕ) where
  added :
      (loaded : List TagRule) (m : Outcome TagRule) {rs : List TagRule}
      → (m >>= λ rule. ok (loaded ++ rule ∷ [])) ≡ ok rs
      → length rs ≡ length loaded + 1
  added loaded (ok rule) e = ground (arith, length-append loaded (rule ∷ []))
  added loaded (err c) e = absurd (cc)
  added loaded fault e = absurd (cc)

  load_rule-bound :
      (loaded : List TagRule) (s : Bytes) {rs : List TagRule}
      → length loaded ≤ max_rules
      → load_rule inet_aton loaded s ≡ ok rs
      → length rs ≤ max_rules
  unfolding load_rule
  load_rule-bound loaded s h e = grind (arith, added)

  load_line-bound :
      (loaded : List TagRule) (buffer : Bytes) {rs : List TagRule}
      → length loaded ≤ max_rules
      → load_line inet_aton loaded buffer ≡ ok rs
      → length rs ≤ max_rules
  unfolding load_line
  load_line-bound loaded buffer h e =
      let (t, _, later) = bind_ok (or_fault (line_editor buffer)) _ e in
      elim (Bool-cases (is_skipped (c_string t))) [
        | inl skipped ↦ ground (arith, later, skipped)
        | inr used ↦ load_rule-bound loaded (c_string t) h (rw used at later)
      ]

  load_lines-bound :
      (ls : List Bytes) (loaded : List TagRule) {rs : List TagRule}
      → length loaded ≤ max_rules
      → load_lines inet_aton loaded ls ≡ ok rs
      → length rs ≤ max_rules
  unfolding load_lines
  load_lines-bound [] loaded h e = ground arith
  load_lines-bound (l ∷ ls) loaded h e =
      let (loaded', first, later) =
        bind_ok (load_line inet_aton loaded (buffered l)) (λ r. load_lines inet_aton r ls) e in
      load_lines-bound ls loaded' (load_line-bound loaded (buffered l) h first) later

  -- The rules that `tag_rules_load` returns are valid, whatever the file holds, and at most 128.
  pub tag_rules_load-Valid :
      (file : ConfigFile) {rs : List TagRule}
      → tag_rules_load inet_aton file ≡ ok rs
      → Valid rs × (length rs ≤ max_rules)
  unfolding tag_rules_load
  tag_rules_load-Valid null_argument e = absurd (cc)
  tag_rules_load-Valid not_opened e = absurd (cc)
  tag_rules_load-Valid (opened content read_fails close_fails) e =
      let (loaded, all_read, finished) =
        bind_ok (load_lines inet_aton [] (lines read_fails content))
          (finish_load read_fails close_fails) e in
      let (same, valid) = finish_load-Valid read_fails close_fails loaded finished in
      (valid, rw same (load_lines-bound (lines read_fails content) [] (omega arith) all_read))
