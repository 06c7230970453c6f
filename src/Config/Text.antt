-- ===== src/Config/Text.antt =====
-- config_parser/config_parser.c: the text of one line. A buffer is the list of its bytes, a C string
-- what stands in front of the first 0.
use vlan_tagger.Prelude.{
  ℕ, zero, suc, ◌+◌, ◌*◌, ◌-◌, ◌^◌, Bool, true, false, ◌&&◌, ◌||◌, [], ◌∷◌, Option, none, some, ltb,
  leb, ◌==◌, if◌then◌else◌, ℤ, pos, negsuc, Bytes,
}
use mathlib.Core.Option

-- `MAX_LINE_LENGTH` and `MAX_RULE_CONTENT_LENGTH`.
abbrev pub max_line_length : ℕ
max_line_length = 100

abbrev pub max_rule_content_length : ℕ
max_rule_content_length = 37

abbrev pub c_string : Bytes → Bytes
c_string [] = []
c_string (c ∷ s) = if c == 0 then [] else c ∷ c_string s

abbrev pub is_blank : ℕ → Bool
is_blank c = c == b' ' || c == b'\t'

-- The first loop of `line_editor`: the rest of the buffer from the first byte of the string that is
-- no blank, if there is one.
abbrev pub first_word : Bytes → Option Bytes
first_word [] = none
first_word (c ∷ s) = if c == 0 then none else if is_blank c then first_word s else some (c ∷ s)

abbrev pub is_stop : ℕ → Bool
is_stop c = c == b' ' || c == b'\t' || c == b'#' || c == b'\n'

-- The second loop, over at most `n` bytes: the first stop byte becomes the end of the string. The
-- loop does not look for the end of the string; `none` is a read behind the end of the buffer.
abbrev pub cut : ℕ → Bytes → Option Bytes
cut zero s = some s
cut (suc n) [] = none
cut (suc n) (c ∷ s) = if is_stop c then some (0 ∷ s) else Option.map (λ t. c ∷ t) (cut n s)

-- `line_editor` behind its first loop.
abbrev pub edit : Bytes → Option Bytes
edit [] = none
edit (c ∷ s) = if c == b'#' then some (c ∷ s) else cut max_rule_content_length (c ∷ s)

-- `line_editor`
unfoldable pub line_editor : Bytes → Option Bytes
line_editor buffer = elim (first_word buffer) [ some t ↦ edit t | none ↦ edit buffer ]

-- `char_count`, on a string
unfoldable pub char_count : Bytes → ℕ → ℕ
char_count [] symbol = 0
char_count (c ∷ s) symbol = (if c == symbol then 1 else 0) + char_count s symbol

-- `strtok_r` with the delimiter `-`: the next token and what `saveptr` points to then.
abbrev pub skip_dashes : Bytes → Bytes
skip_dashes [] = []
skip_dashes (c ∷ s) = if c == b'-' then skip_dashes s else c ∷ s

abbrev pub token : Bytes → Bytes
token [] = []
token (c ∷ s) = if c == b'-' then [] else c ∷ token s

abbrev pub behind_token : Bytes → Bytes
behind_token [] = []
behind_token (c ∷ s) = if c == b'-' then s else behind_token s

abbrev pub token_at : Bytes → Option (Bytes × Bytes)
token_at [] = none
token_at (c ∷ s) = some (token (c ∷ s), behind_token (c ∷ s))

unfoldable pub strtok_r : Bytes → Option (Bytes × Bytes)
strtok_r s = token_at (skip_dashes s)

-- `strtol` in base 10: blanks, a sign, digits. `LONG_MAX` is 2^63 - 1; a value out of range is
-- clamped, and `errno` is ERANGE.
abbrev pub is_space : ℕ → Bool
is_space c = c == b' ' || (leb 9 c && leb c 13)

abbrev pub skip_spaces : Bytes → Bytes
skip_spaces [] = []
skip_spaces (c ∷ s) = if is_space c then skip_spaces s else c ∷ s

abbrev pub is_digit : ℕ → Bool
is_digit c = leb b'0' c && leb c b'9'

abbrev pub digits_value : ℕ → Bytes → ℕ
digits_value acc [] = acc
digits_value acc (c ∷ s) =
    let rest = digits_value (acc * 10 + (c - b'0')) s in if is_digit c then rest else acc

abbrev pub behind_digits : Bytes → Bytes
behind_digits [] = []
behind_digits (c ∷ s) = if is_digit c then behind_digits s else c ∷ s

abbrev pub starts_with_digit : Bytes → Bool
starts_with_digit [] = false
starts_with_digit (c ∷ s) = is_digit c

pub record Long : Type 0 where
  pub value : ℤ
  pub erange : Bool
  pub endptr : Bytes
  pub converted : Bool

abbrev pub long_max : ℕ
long_max = 2 ^ 63 - 1

abbrev pub negative : ℕ → ℤ
negative zero = pos 0
negative (suc n) = negsuc n

-- The digits behind a sign, which is - where `minus_sign`.
abbrev pub signed_digits : Bool → Bytes → Bytes → Long
signed_digits minus_sign whole s =
    let n = digits_value 0 s in
    if starts_with_digit s
    then record {
      value =
          if minus_sign
          then (if leb n (long_max + 1) then negative n else negative (long_max + 1))
          else (if leb n long_max then pos n else pos long_max);
      erange = if minus_sign then ltb (long_max + 1) n else ltb long_max n;
      endptr = behind_digits s;
      converted = true;
    }
    else record { value = pos 0; erange = false; endptr = whole; converted = false }

abbrev pub after_spaces : Bytes → Bytes → Long
after_spaces whole [] = signed_digits false whole []
after_spaces whole (c ∷ s) =
    if c == b'-'
    then signed_digits true whole s
    else if c == b'+'
    then signed_digits false whole s
    else signed_digits false whole (c ∷ s)

unfoldable pub strtol : Bytes → Long
strtol s = after_spaces s (skip_spaces s)

-- `INT_MIN` and `INT_MAX`.
abbrev pub fits_int : ℤ → Bool
fits_int (pos n) = ltb n (2 ^ 31)
fits_int (negsuc n) = ltb n (2 ^ 31)

abbrev pub at_end : Bytes → Bool
at_end [] = true
at_end (c ∷ s) = false

-- `tag_converting`; `none` is the return value -1.
unfoldable pub tag_converting : Bytes → Option ℤ
tag_converting tag_str =
    let r = strtol tag_str in
    if r.erange
    then none
    else if fits_int r.value
    then (if r.converted && at_end r.endptr then some r.value else none)
    else none
