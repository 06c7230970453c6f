-- ===== src/Config/Load.antt =====
-- config_parser/config_parser.c: `tag_rules_load`. A file is its bytes and the two ways in which
-- reading it can fail. On a failure the code leaves some of the rules behind in `*tag_rules`; its
-- caller does not look at them, and they are not kept here.
pub mod Bounds
pub mod Pieces
pub mod Format
pub mod Reads
pub mod Faults
use vlan_tagger.Prelude.{
  ℕ, zero, suc, ◌+◌, ◌-◌, Bool, true, false, not, ◌||◌, List, [], ◌∷◌, ◌++◌, Option, none, some,
  ltb, leb, ◌==◌, if◌then◌else◌, ℤ, pos, negsuc, Bytes, length, replicate,
}
use vlan_tagger.Config.Text.{
  max_line_length, c_string, line_editor, char_count, strtok_r, tag_converting,
}
use vlan_tagger.Config.{TagRule, max_rules, minus, validate_rules}

-- A result, the error code that the function returns, or a read outside the buffer.
pub data Outcome {ℓ} (A : Type ℓ) : Type ℓ where
  ok : A → Outcome A
  err : ℤ → Outcome A
  fault : Outcome A

infixl 5 ◌>>=◌
abbrev pub ◌>>=◌ {ℓ κ} : {A : Type ℓ} {B : Type κ} → Outcome A → (A → Outcome B) → Outcome B
ok a >>= f = f a
err e >>= f = err e
fault >>= f = fault

abbrev pub or_err {ℓ} : {A : Type ℓ} → Option A → ℤ → Outcome A
or_err none e = err e
or_err (some a) e = ok a

abbrev pub or_fault {ℓ} : {A : Type ℓ} → Option A → Outcome A
or_fault none = fault
or_fault (some a) = ok a

-- What successive calls of `fgets(rule, 100, pfile)` read: up to 99 bytes each, and no further than a
-- newline. `room` bytes fit behind `acc`. Where the last read fails what it had read is lost.
abbrev pub last_line : Bool → Bytes → List Bytes
last_line broken [] = []
last_line broken (c ∷ acc) = if broken then [] else (c ∷ acc) ∷ []

unfoldable pub gets : Bool → ℕ → Bytes → Bytes → List Bytes
gets broken room acc [] = last_line broken acc
gets broken room acc (c ∷ s) =
    let full = c == b'\n' || room == 1 in
    let acc' = acc ++ c ∷ [] in
    let rest =
      gets broken (if full then max_line_length - 1 else room - 1) (if full then [] else acc') s in
    if full then acc' ∷ rest else rest

abbrev pub lines : Bool → Bytes → List Bytes
lines broken s = gets broken (max_line_length - 1) [] s

-- The 100 bytes of `rule`, which are 0 before `fgets`.
abbrev pub buffered : Bytes → Bytes
buffered line = line ++ replicate (max_line_length - length line) 0

-- `*real_start` is the end of the string, `#` or a newline.
abbrev pub is_skipped : Bytes → Bool
is_skipped [] = true
is_skipped (c ∷ s) = c == b'#' || c == b'\n'

-- `tag_rules` and `config_path` are given and the file opens; or which of that fails.
pub data ConfigFile : Type 0 where
  null_argument : ConfigFile
  not_opened : ConfigFile
  opened : Bytes → (read_fails close_fails : Bool) → ConfigFile

-- `validation_result != 0` is returned.
abbrev pub checked : ℤ → List TagRule → Outcome (List TagRule)
checked (pos zero) loaded = ok loaded
checked result loaded = err result

-- What follows the loop.
unfoldable pub finish_load : Bool → Bool → List TagRule → Outcome (List TagRule)
finish_load read_fails close_fails loaded =
    if read_fails
    then err (minus 3)
    else if close_fails
    then err (minus 10)
    else if ltb 0 (length loaded)
    then checked (validate_rules loaded) loaded
    else ok loaded

-- `inet_aton` gives `s_addr`; `none` is its return value 0.
module _ (inet_aton : Bytes → Option ℕ) where
  -- `strtok_r`, then `ip_converting`
  abbrev pub next_ip : Bytes → Outcome (ℕ × Bytes)
  next_ip s = do
    (part, rest) ← or_err (strtok_r s) (minus 7)
    ip ← or_err (inet_aton part) (minus 8)
    ok (ip, rest)

  -- The tokens of a rule with one dash, or two.
  unfoldable pub parse_rule : Bytes → ℕ → Outcome TagRule
  parse_rule s dash_count = do
    (left, rest) ← next_ip s
    (right, rest') ← if dash_count == 1 then ok (left, rest) else next_ip rest
    (part, _) ← or_err (strtok_r rest') (minus 7)
    tag ← or_err (tag_converting part) (minus 9)
    ok (record { ip_left = left; ip_right = right; tag = tag })

  -- The body of the loop behind `line_editor`.
  unfoldable pub load_rule : List TagRule → Bytes → Outcome (List TagRule)
  load_rule loaded s =
      let dash_count = char_count s b'-' in
      if ltb dash_count 1 || ltb 2 dash_count
      then err (minus 5)
      else if leb max_rules (length loaded)
      then err (minus 6)
      else (do rule ← parse_rule s dash_count; ok (loaded ++ rule ∷ []))

  -- The body of the loop, on the bytes of `rule`.
  unfoldable pub load_line : List TagRule → Bytes → Outcome (List TagRule)
  load_line loaded buffer = do
    real_start ← or_fault (line_editor buffer)
    let s = c_string real_start
    if is_skipped s then ok loaded else load_rule loaded s

  unfoldable pub load_lines : List TagRule → List Bytes → Outcome (List TagRule)
  load_lines loaded [] = ok loaded
  load_lines loaded (line ∷ rest) = do
    loaded' ← load_line loaded (buffered line)
    load_lines loaded' rest

  -- `tag_rules_load`: the rules in place of their number.
  unfoldable pub tag_rules_load : ConfigFile → Outcome (List TagRule)
  tag_rules_load null_argument = err (minus 1)
  tag_rules_load not_opened = err (minus 2)
  tag_rules_load (opened content read_fails close_fails) = do
    loaded ← load_lines [] (lines read_fails content)
    finish_load read_fails close_fails loaded
