-- ===== src/Config/Load/Pieces.antt =====
-- config_parser/config_parser.c: each text function on a piece of a well-written line.
use vlan_tagger.Prelude.{
  ℕ, zero, suc, ◌+◌, ◌-◌, ◌^◌, ◌<◌, ◌≡◌, ◌≢◌, refl, ap, ◌∙◌, Bool, true, false, not, ◌||◌, [], ◌∷◌,
  ◌++◌, some, arith, ◌==◌, pos, Bytes, length, replicate, All, append_assoc,
}
use vlan_tagger.Config.Text.{
  max_line_length, max_rule_content_length, c_string, first_word, is_stop, cut, edit, line_editor,
  char_count, token, behind_token, strtok_r, is_digit, digits_value, behind_digits, strtol,
  tag_converting,
}
use vlan_tagger.Config.Load.{gets, lines, buffered}

-- No end of string, no stop byte, no dash.
abbrev pub is_plain : ℕ → Bool
is_plain c = not (c == 0 || is_stop c || c == b'-')

abbrev pub IsPlain : Bytes → Type 0
IsPlain = All (λ c. is_plain c ≡ true)

abbrev pub IsNumber : Bytes → Type 0
IsNumber = All (λ c. is_digit c ≡ true)

-- A text with no stop byte and no end of string in it.
abbrev pub IsWord : Bytes → Type 0
IsWord = All (λ c. (is_stop c ≡ false) × (c ≢ 0))

abbrev pub HasNoNewline : Bytes → Type 0
HasNoNewline = All (λ c. c ≢ b'\n')

pub IsPlain-IsWord : (s : Bytes) → IsPlain s → IsWord s
IsPlain-IsWord [] h = tt
IsPlain-IsWord (c ∷ s) h = (ground arith, IsPlain-IsWord s h.1)

pub IsNumber-IsPlain : (s : Bytes) → IsNumber s → IsPlain s
IsNumber-IsPlain [] h = tt
IsNumber-IsPlain (c ∷ s) h = (ground arith, IsNumber-IsPlain s h.1)

pub IsWord-HasNoNewline : (s : Bytes) → IsWord s → HasNoNewline s
IsWord-HasNoNewline [] h = tt
IsWord-HasNoNewline (c ∷ s) h = (ground arith, IsWord-HasNoNewline s h.1)

pub IsWord-append : (s t : Bytes) → IsWord s → IsWord t → IsWord (s ++ t)
IsWord-append [] t h k = k
IsWord-append (c ∷ s) t h k = (h.0, IsWord-append s t h.1 k)

-- One byte of a line: the line goes on, or it is full.
pub gets-goes_on :
    (broken : Bool) (room : ℕ) (acc : Bytes) (c : ℕ) (s : Bytes)
    → c ≢ b'\n'
    → 1 < room
    → gets broken room acc (c ∷ s) ≡ gets broken (room - 1) (acc ++ c ∷ []) s
unfolding gets
gets-goes_on broken room acc c s h fits =
    let e : (c == b'\n' || room == 1) ≡ false = ground arith in rw e

pub gets-full :
    (broken : Bool) (room : ℕ) (acc : Bytes) (c : ℕ) (s : Bytes)
    → (c == b'\n' || room == 1) ≡ true
    → gets broken room acc (c ∷ s) ≡ (acc ++ c ∷ []) ∷ lines broken s
unfolding gets
gets-full broken room acc c s e = rw e

-- A line that fits the buffer is read whole.
gets_line :
    (t acc rest : Bytes) (room : ℕ)
    → HasNoNewline t
    → length t < room
    → gets false room acc (t ++ b'\n' ∷ rest) ≡ (acc ++ (t ++ b'\n' ∷ [])) ∷ lines false rest
gets_line [] acc rest room h fits = gets-full false room acc b'\n' rest refl
gets_line (c ∷ t) acc rest room h fits =
    gets-goes_on false room acc c _ h.0 (omega arith)
    ∙ gets_line t (acc ++ c ∷ []) rest (room - 1) h.1 (omega arith)
    ∙ ap (λ l. l ∷ lines false rest) (append_assoc acc (c ∷ []) (t ++ b'\n' ∷ []))

pub lines_cons :
    (t rest : Bytes)
    → HasNoNewline t
    → length t < max_line_length - 1
    → lines false (t ++ b'\n' ∷ rest) ≡ (t ++ b'\n' ∷ []) ∷ lines false rest
lines_cons t rest h fits = gets_line t [] rest (max_line_length - 1) h fits

c_string-append : (t rest : Bytes) → IsWord t → c_string (t ++ 0 ∷ rest) ≡ t
c_string-append [] rest h = refl
c_string-append (c ∷ t) rest h = ground (arith, c_string-append t rest h.1)

cut-append :
    (t rest : Bytes) (n c : ℕ)
    → IsWord t
    → is_stop c ≡ true
    → length t < n
    → cut n (t ++ c ∷ rest) ≡ some (t ++ 0 ∷ rest)
cut-append t rest zero c h stop fits = absurd (omega arith)
cut-append [] rest (suc n) c h stop fits = rw stop
cut-append (d ∷ t) rest (suc n) c h stop fits =
    rw (h.0.0, cut-append t rest n c h.1 stop (omega arith))

char_count-append : (s t : Bytes) (c : ℕ) → char_count (s ++ t) c ≡ char_count s c + char_count t c
unfolding char_count
char_count-append [] t c = omega arith
char_count-append (d ∷ s) t c = omega (arith, char_count-append s t c)

pub char_count-IsPlain : (s : Bytes) → IsPlain s → char_count s b'-' ≡ 0
unfolding char_count
char_count-IsPlain [] h = refl
char_count-IsPlain (c ∷ s) h = ground (arith, char_count-IsPlain s h.1)

pub char_count_dash :
    (s t : Bytes) → IsPlain s → char_count (s ++ b'-' ∷ t) b'-' ≡ 1 + char_count t b'-'
unfolding char_count
char_count_dash s t h = omega (arith, char_count-append s (b'-' ∷ t) b'-', char_count-IsPlain s h)

token-append : (s t : Bytes) → IsPlain s → token (s ++ b'-' ∷ t) ≡ s
token-append [] t h = refl
token-append (c ∷ s) t h = ground (arith, token-append s t h.1)

behind_token-append : (s t : Bytes) → IsPlain s → behind_token (s ++ b'-' ∷ t) ≡ t
behind_token-append [] t h = refl
behind_token-append (c ∷ s) t h = ground (arith, behind_token-append s t h.1)

token-IsPlain : (s : Bytes) → IsPlain s → (token s ≡ s) × (behind_token s ≡ [])
token-IsPlain [] h = (refl, refl)
token-IsPlain (c ∷ s) h = ground (arith, token-IsPlain s h.1)

-- The token in front of a dash, and the last token.
pub strtok_r-append : (s t : Bytes) → s ≢ [] → IsPlain s → strtok_r (s ++ b'-' ∷ t) ≡ some (s, t)
unfolding strtok_r
strtok_r-append [] t ne h = absurd (ne refl)
strtok_r-append (c ∷ s) t ne h =
    ground (arith, token-append (c ∷ s) t h, behind_token-append (c ∷ s) t h)

pub strtok_r-IsPlain : (s : Bytes) → s ≢ [] → IsPlain s → strtok_r s ≡ some (s, [])
unfolding strtok_r
strtok_r-IsPlain [] ne h = absurd (ne refl)
strtok_r-IsPlain (c ∷ s) ne h = ground (arith, token-IsPlain (c ∷ s) h)

-- `line_editor` finds a word at the start of the line, and the string that it leaves is that word.
first_word-IsWord :
    (t : Bytes) (rest : Bytes) → t ≢ [] → IsWord t → first_word (t ++ rest) ≡ some (t ++ rest)
first_word-IsWord [] rest ne h = absurd (ne refl)
first_word-IsWord (c ∷ t) rest ne h = ground (arith, h.0)

edit-IsWord :
    (t rest : Bytes)
    → t ≢ []
    → IsWord t
    → length t < max_rule_content_length
    → edit (t ++ b'\n' ∷ rest) ≡ some (t ++ 0 ∷ rest)
edit-IsWord [] rest ne h fits = absurd (ne refl)
edit-IsWord (c ∷ t) rest ne h fits =
    ground (arith, h.0, cut-append (c ∷ t) rest max_rule_content_length b'\n' h refl fits)

pub line_editor-edit :
    (buffer : Bytes) {t : Bytes} → first_word buffer ≡ some t → line_editor buffer ≡ edit t
unfolding line_editor
line_editor-edit buffer e = rw (e, line_editor)

pub line_editor-IsWord :
    (t : Bytes)
    → t ≢ []
    → IsWord t
    → length t < max_rule_content_length
    → (real_start : Bytes) × (line_editor (buffered (t ++ b'\n' ∷ [])) ≡ some real_start)
      × (c_string real_start ≡ t)
line_editor-IsWord t ne h fits =
    let zeros = replicate (max_line_length - length (t ++ b'\n' ∷ [])) 0 in
    (
      t ++ 0 ∷ zeros,
      rw (append_assoc t (b'\n' ∷ []) zeros) (
          line_editor-edit _ (first_word-IsWord t (b'\n' ∷ zeros) ne h)
          ∙ edit-IsWord t zeros ne h fits),
      c_string-append t zeros h,
    )

-- Digits alone are read as the number that they spell.
pub digits-IsNumber : (t : Bytes) → IsNumber t → (behind_digits t ≡ [])
digits-IsNumber [] h = refl
digits-IsNumber (c ∷ t) h = ground (arith, digits-IsNumber t h.1)

strtol-IsNumber :
    (t : Bytes)
    → t ≢ []
    → IsNumber t
    → digits_value 0 t < 2 ^ 31
    → strtol t
      ≡ record { value = pos (digits_value 0 t); erange = false; endptr = []; converted = true }
unfolding strtol
strtol-IsNumber [] ne h fits = absurd (ne refl)
strtol-IsNumber (c ∷ t) ne h fits = ground (arith, digits-IsNumber (c ∷ t) h)

pub tag_converting-IsNumber :
    (t : Bytes)
    → t ≢ []
    → IsNumber t
    → digits_value 0 t < 2 ^ 31
    → tag_converting t ≡ some (pos (digits_value 0 t))
tag_converting-IsNumber t ne h fits =
    unfold tag_converting in ground (arith, strtol-IsNumber t ne h fits)
