-- ===== src/Config/Load/Format.antt =====
-- The format of the configuration file, after README.md, and the sizes of its lines.
use vlan_tagger.Prelude.{
  ℕ, ◌+◌, ◌-◌, ◌≤◌, ◌<◌, ◌≡◌, ◌≢◌, refl, true, List, [], ◌∷◌, ◌++◌, Option, some, arith, pos, Bytes,
  length, All, length-append,
}
use vlan_tagger.Config.Text.{max_line_length, max_rule_content_length, is_blank, digits_value}
use vlan_tagger.Config.Load.Pieces.{
  IsPlain, IsNumber, IsWord, HasNoNewline, IsPlain-IsWord, IsNumber-IsPlain, IsWord-HasNoNewline,
  IsWord-append,
}
use vlan_tagger.Config.{TagRule, max_vlan_id}

-- The lines of a configuration file: `IP_START-IP_END-VLAN_ID`, `IP-VLAN_ID`, a comment behind
-- blanks, and blanks alone. A rule carries the two values of `s_addr` that its texts stand for.
pub data Line : Type 0 where
  range : (from to id : Bytes) → (left right : ℕ) → Line
  single : (ip id : Bytes) → (address : ℕ) → Line
  comment : (blanks text : Bytes) → Line
  empty : (blanks : Bytes) → Line

unfoldable pub text_of : Line → Bytes
text_of (range from to id left right) = from ++ b'-' ∷ (to ++ b'-' ∷ id)
text_of (single ip id address) = ip ++ b'-' ∷ id
text_of (comment blanks text) = blanks ++ b'#' ∷ text
text_of (empty blanks) = blanks

abbrev pub rules_of : Line → List TagRule
rules_of (range from to id left right) =
    record { ip_left = left; ip_right = right; tag = pos (digits_value 0 id) } ∷ []
rules_of (single ip id address) =
    record { ip_left = address; ip_right = address; tag = pos (digits_value 0 id) } ∷ []
rules_of (comment blanks text) = []
rules_of (empty blanks) = []

abbrev pub all_rules : List Line → List TagRule
all_rules [] = []
all_rules (l ∷ ls) = rules_of l ++ all_rules ls

abbrev pub file_of : List Line → Bytes
file_of [] = []
file_of (l ∷ ls) = text_of l ++ b'\n' ∷ file_of ls

abbrev pub AreBlank : Bytes → Type 0
AreBlank = All (λ c. is_blank c ≡ true)

-- A VLAN ID is one to four digits, of a number up to 4095.
pub record IsId (id : Bytes) : Type 0 where
  pub digits : IsNumber id
  pub some_digit : id ≢ []
  pub short : length id ≤ 4
  pub in_range : digits_value 0 id ≤ max_vlan_id

module _ (inet_aton : Bytes → Option ℕ) where
  -- An address is at most 15 bytes, as `255.255.255.255` is, and `inet_aton` reads it.
  pub record IsIp (text : Bytes) (address : ℕ) : Type 0 where
    pub plain : IsPlain text
    pub some_byte : text ≢ []
    pub short : length text ≤ 15
    pub reads : inet_aton text ≡ some address

  abbrev pub IsWritten : Line → Type 0
  IsWritten (range from to id left right) = IsIp from left × IsIp to right × IsId id
  IsWritten (single ip id address) = IsIp ip address × IsId id
  IsWritten (comment blanks text) =
      AreBlank blanks × HasNoNewline text × (length blanks + length text < 98)
  IsWritten (empty blanks) = AreBlank blanks × (length blanks < 63)

  -- The text of a rule is a word that fits the buffer and the limit of `line_editor`.
  abbrev pub Fits : Bytes → Type 0
  Fits t = (t ≢ []) × IsWord t × (length t < max_rule_content_length)

  append-ne-nil : (s t : Bytes) (c : ℕ) → s ++ c ∷ t ≢ []
  append-ne-nil [] t c e = cc
  append-ne-nil (d ∷ s) t c e = cc

  IsWord-dash : (s t : Bytes) → IsPlain s → IsWord t → IsWord (s ++ b'-' ∷ t)
  IsWord-dash s t h k =
      IsWord-append s (b'-' ∷ t) (IsPlain-IsWord s h) ((refl, λ e. omega arith), k)

  pub Fits-single :
      (ip id : Bytes) (address : ℕ) → IsIp ip address → IsId id → Fits (ip ++ b'-' ∷ id)
  Fits-single ip id address a i = (
    append-ne-nil ip id b'-',
    IsWord-dash ip id a.plain (IsPlain-IsWord id (IsNumber-IsPlain id i.digits)),
    omega (arith, length-append ip (b'-' ∷ id), a.short, i.short),
  )

  pub Fits-range :
      (from to id : Bytes) (left right : ℕ)
      → IsIp from left
      → IsIp to right
      → IsId id
      → Fits (from ++ b'-' ∷ (to ++ b'-' ∷ id))
  Fits-range from to id left right a b i = (
    append-ne-nil from (to ++ b'-' ∷ id) b'-',
    IsWord-dash from _ a.plain
        (IsWord-dash to id b.plain (IsPlain-IsWord id (IsNumber-IsPlain id i.digits))),
    omega (
      arith,
      length-append from (b'-' ∷ (to ++ b'-' ∷ id)),
      length-append to (b'-' ∷ id),
      a.short,
      b.short,
      i.short,
    ),
  )

  AreBlank-HasNoNewline : (s : Bytes) → AreBlank s → HasNoNewline s
  AreBlank-HasNoNewline [] h = tt
  AreBlank-HasNoNewline (c ∷ s) h = (ground arith, AreBlank-HasNoNewline s h.1)

  HasNoNewline-append : (s t : Bytes) → HasNoNewline s → HasNoNewline t → HasNoNewline (s ++ t)
  HasNoNewline-append [] t h k = k
  HasNoNewline-append (c ∷ s) t h k = (h.0, HasNoNewline-append s t h.1 k)

  -- A well-written line is one read of `fgets`.
  abbrev pub IsOneLine : Bytes → Type 0
  IsOneLine t = HasNoNewline t × (length t < max_line_length - 1)

  Fits-IsOneLine : (t : Bytes) → Fits t → IsOneLine t
  Fits-IsOneLine t (ne, word, short) = (IsWord-HasNoNewline t word, omega arith)

  pub Line-IsOneLine : (l : Line) → IsWritten l → IsOneLine (text_of l)
  unfolding text_of
  Line-IsOneLine (range from to id left right) (a, b, i) =
      Fits-IsOneLine _ (Fits-range from to id left right a b i)
  Line-IsOneLine (single ip id address) (a, i) = Fits-IsOneLine _ (Fits-single ip id address a i)
  Line-IsOneLine (comment blanks text) (h, plain, short) = (
    HasNoNewline-append blanks (b'#' ∷ text) (AreBlank-HasNoNewline blanks h)
        ((λ e. omega arith), plain),
    omega (arith, length-append blanks (b'#' ∷ text)),
  )
  Line-IsOneLine (empty blanks) (h, short) = (AreBlank-HasNoNewline blanks h, omega arith)
