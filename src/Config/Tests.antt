-- ===== src/Config/Tests.antt =====
-- tests/config_parser_test.c, and the theorems on the configuration at concrete inputs.
use Prim.Native.Char.{code}
use Prim.Native.String.{String}
use vlan_tagger.Prelude.{
  ℕ, zero, suc, ◌+◌, ◌*◌, ◌≤◌, ◌≡◌, ◌≢◌, refl, ◌⊎◌, true, false, List, [], ◌∷◌, ◌++◌, Option, none,
  some, arith, ◌==◌, if◌then◌else◌, pos, Bytes, length, replicate, All, All-replicate,
  length-replicate, all_true, All-all_true,
}
use vlan_tagger.Net.{ntohl}
use vlan_tagger.Config.Text.{
  digits_value, behind_digits, is_digit, is_blank, line_editor, char_count, strtok_r, strtol,
  tag_converting,
}
use vlan_tagger.Config.Load.{
  Outcome, ok, err, fault, opened, buffered, gets, parse_rule, load_rule, load_line, load_lines,
  finish_load, tag_rules_load,
}
use vlan_tagger.Config.Load.Bounds.{tag_rules_load-Valid}
use vlan_tagger.Config.Load.Pieces.{is_plain, IsPlain-IsWord}
use vlan_tagger.Config.Load.Format.{
  Line, range, single, comment, empty, text_of, all_rules, IsWritten, IsIp, IsId,
}
use vlan_tagger.Config.Load.Reads.{tag_rules_load-file}
use vlan_tagger.Config.Load.Faults.{tag_rules_load-comment, load_line-fault}
use vlan_tagger.Config.Valid.{
  Valid, AreApart, IsOrdered, IsVlanId, validate_rules-Valid, validate_rules_cases,
}
use vlan_tagger.Config.{TagRule, max_rules, max_vlan_id, minus, validate_rules}

-- code points; every literal below is ASCII
abbrev codes : String → Bytes
codes String.[] = []
codes (String.◌∷◌ c s) = code c ∷ codes s

-- Four decimal numbers with dots between them, as the address in network order.
dotted : ℕ → ℕ → Bytes → Option ℕ
dotted zero acc s = none
dotted (suc zero) acc s = elim (behind_digits s) [
  | [] ↦ some (ntohl (acc * 256 + digits_value 0 s))
  | c ∷ r ↦ none
]
dotted (suc (suc n)) acc s = elim (behind_digits s) [
  | [] ↦ none
  | c ∷ r ↦ if c == b'.' then dotted (suc n) (acc * 256 + digits_value 0 s) r else none
]

abbrev aton : Bytes → Option ℕ
aton = dotted 4 0

abbrev rule : ℕ → ℕ → ℕ → TagRule
rule left right tag = record { ip_left = ntohl left; ip_right = ntohl right; tag = pos tag }

load : String → Outcome (List TagRule)
unfolding tag_rules_load gets load_lines load_line load_rule parse_rule finish_load line_editor
    char_count strtok_r strtol tag_converting dotted ntohl validate_rules
load s = tag_rules_load aton (opened (codes s) false false)

-- test_valid_rules
valid_rules :
    load "# comment line\n10.0.0.1-10.0.0.10-100\n172.16.0.5-200\n192.168.0.0-192.168.0.10-300\n"
    ≡ ok (
        rule 0x0a000001 0x0a00000a 100
        ∷ rule 0xac100005 0xac100005 200
        ∷ rule 0xc0a80000 0xc0a8000a 300
        ∷ [])
unfolding load
valid_rules = refl

-- test_invalid_vlan_id, test_overlapping_ranges, and lines that are not rules
refused :
    (load "10.0.0.1-10.0.0.2-5000\n" ≡ err (minus 13))
    × (load "10.0.0.0-10.0.0.5-10\n10.0.0.4-10.0.0.10-20\n" ≡ err (minus 12))
    × (load "10.0.0.9-10.0.0.5-10\n" ≡ err (minus 11))
    × (load "10.0.0.9\n" ≡ err (minus 5))
    × (load "10.0.0.9-\n" ≡ err (minus 7))
    × (load "10.0.0-7\n" ≡ err (minus 8))
    × (load "10.0.0.9-7x\n" ≡ err (minus 9))
unfolding load
refused = (refl, refl, refl, refl, refl, refl, refl)

abbrev some_rules : List TagRule
some_rules = rule 10 20 5 ∷ rule 21 30 6 ∷ []

some_rules-Valid : Valid some_rules
unfolding ntohl
some_rules-Valid = record {
  ordered = omega arith;
  apart = ((λ a h k. omega arith, tt), (tt, tt));
  tagged = omega arith;
}

validate_rules-Valid_example : Valid some_rules
unfolding validate_rules ntohl
validate_rules-Valid_example = validate_rules-Valid some_rules refl

validate_rules_cases_example :
    ((validate_rules some_rules ≡ pos 0) × Valid some_rules)
    ⊎ ((validate_rules some_rules ≡ minus 11) × (¬ All IsOrdered some_rules))
    ⊎ ((validate_rules some_rules ≡ minus 12) × All IsOrdered some_rules × (¬ AreApart some_rules))
    ⊎ ((validate_rules some_rules ≡ minus 13)
        × All IsOrdered some_rules
        × AreApart some_rules
        × (¬ All (λ r. IsVlanId r.tag) some_rules))
validate_rules_cases_example = validate_rules_cases some_rules

one_rule_loaded : load "10.0.0.1-5\n" ≡ ok (rule 0x0a000001 0x0a000001 5 ∷ [])
unfolding load
one_rule_loaded = refl

tag_rules_load-Valid_example :
    Valid (rule 0x0a000001 0x0a000001 5 ∷ [])
    × (length (rule 0x0a000001 0x0a000001 5 ∷ []) ≤ max_rules)
unfolding load
tag_rules_load-Valid_example =
    tag_rules_load-Valid aton (opened (codes "10.0.0.1-5\n") false false) one_rule_loaded

abbrev some_lines : List Line
some_lines =
    comment (codes " ") (codes " rules")
    ∷ range (codes "0.0.0.10") (codes "0.0.0.20") (codes "5") (ntohl 10) (ntohl 20)
    ∷ empty (codes "  ")
    ∷ single (codes "0.0.0.30") (codes "0006") (ntohl 30)
    ∷ []

short-IsIp :
    (text : Bytes) (address : ℕ)
    → all_true is_plain text ≡ true
    → text ≢ []
    → length text ≤ 15
    → aton text ≡ some address
    → IsIp aton text address
short-IsIp text address plain ne short reads = record {
  plain = All-all_true is_plain text plain;
  some_byte = ne;
  short = short;
  reads = reads;
}

short-IsId :
    (id : Bytes)
    → all_true is_digit id ≡ true
    → id ≢ []
    → length id ≤ 4
    → digits_value 0 id ≤ max_vlan_id
    → IsId id
short-IsId id digits ne short in_range = record {
  digits = All-all_true is_digit id digits;
  some_digit = ne;
  short = short;
  in_range = in_range;
}

some_lines-IsWritten : All (IsWritten aton) some_lines
unfolding dotted
some_lines-IsWritten = (
  ((refl, tt), omega arith, omega arith),
  (
    (
      (short-IsIp _ _ refl (λ e. cc) (omega arith) refl),
      (short-IsIp _ _ refl (λ e. cc) (omega arith) refl),
      short-IsId _ refl (λ e. cc) (omega arith) (omega arith),
    ),
    (
      ((refl, (refl, tt)), omega arith),
      (
        (
          short-IsIp _ _ refl (λ e. cc) (omega arith) refl,
          short-IsId _ refl (λ e. cc) (omega arith) (omega arith),
        ),
        tt,
      ),
    ),
  ),
)

some_lines-Valid : Valid (all_rules some_lines)
unfolding ntohl
some_lines-Valid = record {
  ordered = omega arith;
  apart = ((λ a h k. omega arith, tt), (tt, tt));
  tagged = omega arith;
}

tag_rules_load-file_example :
    tag_rules_load aton
      (opened (codes " # rules\n0.0.0.10-0.0.0.20-5\n  \n0.0.0.30-0006\n") false false)
    ≡ ok (rule 10 20 5 ∷ rule 30 30 6 ∷ [])
unfolding text_of
tag_rules_load-file_example =
    tag_rules_load-file aton some_lines some_lines-IsWritten (omega arith) some_lines-Valid

tag_rules_load-comment_example :
    tag_rules_load aton (opened (b'#' ∷ replicate 98 b'x' ++ codes "10.0.0.1-5\n") false false)
    ≡ tag_rules_load aton (opened (codes "10.0.0.1-5\n") false false)
tag_rules_load-comment_example =
    tag_rules_load-comment aton (replicate 98 b'x') (codes "10.0.0.1-5\n") false false
      (All-replicate {A = ℕ} (λ c. c ≢ b'\n') 98 b'x' (omega arith))
      (length-replicate {A = ℕ} 98 b'x')

load_line-fault_example :
    load_line aton [] (buffered (replicate 70 b' ' ++ codes "10.0.0.1")) ≡ fault
load_line-fault_example =
    load_line-fault aton [] (replicate 70 b' ') (codes "10.0.0.1")
      (All-replicate {A = ℕ} (λ c. is_blank c ≡ true) 70 b' ' refl) (omega arith) (λ e. cc)
      (IsPlain-IsWord (codes "10.0.0.1") (All-all_true is_plain (codes "10.0.0.1") refl))
      (omega arith)
