-- ===== src/Config/Load/Reads.antt =====
-- config_parser/config_parser.c: `tag_rules_load` reads the file format that README.md describes.
use vlan_tagger.Prelude.{
  ℕ, ◌-◌, ◌≤◌, ◌<◌, ◌≡◌, ◌≢◌, refl, ◌⊎◌, inl, inr, ap, ◌∙◌, false, List, [], ◌∷◌, ◌++◌, Option,
  some, arith, if◌then◌else◌, pos, Bytes, length, replicate, All, append_assoc, append-nil,
  length-append,
}
use vlan_tagger.Config.Text.{
  max_line_length, c_string, is_blank, first_word, line_editor, char_count, digits_value,
}
use vlan_tagger.Config.Load.{
  ok, gets, lines, buffered, is_skipped, opened, parse_rule, load_rule, load_line, load_lines,
  finish_load, tag_rules_load,
}
use vlan_tagger.Config.Load.Format.{
  Line, range, single, comment, empty, text_of, rules_of, all_rules, file_of, AreBlank, IsId, IsIp,
  IsWritten, Fits, Fits-single, Fits-range, Line-IsOneLine,
}
use vlan_tagger.Config.Load.Pieces.{
  IsWord, IsNumber-IsPlain, lines_cons, char_count_dash, char_count-IsPlain, strtok_r-append,
  strtok_r-IsPlain, line_editor-edit, line_editor-IsWord, tag_converting-IsNumber,
}
use vlan_tagger.Config.Valid.{Valid, Valid-validate_rules}
use vlan_tagger.Config.{TagRule, max_rules}

-- A line whose first byte behind the blanks is `#` or the newline adds nothing.
pub first_word-AreBlank :
    (blanks : Bytes) (c : ℕ) (rest : Bytes)
    → AreBlank blanks
    → c ≢ 0
    → is_blank c ≡ false
    → first_word (blanks ++ c ∷ rest) ≡ some (c ∷ rest)
first_word-AreBlank [] c rest h ne other = ground arith
first_word-AreBlank (b ∷ blanks) c rest h ne other =
    ground (arith, first_word-AreBlank blanks c rest h.1 ne other)

module _ (inet_aton : Bytes → Option ℕ) where
  -- The tokens of the two forms.
  parse_rule-single :
      (ip id : Bytes) (address : ℕ)
      → IsIp inet_aton ip address
      → IsId id
      → parse_rule inet_aton (ip ++ b'-' ∷ id) 1
        ≡ ok (record { ip_left = address; ip_right = address; tag = pos (digits_value 0 id) })
  unfolding parse_rule
  parse_rule-single ip id address a i = simp (
    strtok_r-append ip id a.some_byte a.plain,
    a.reads,
    strtok_r-IsPlain id i.some_digit (IsNumber-IsPlain id i.digits),
    tag_converting-IsNumber id i.some_digit i.digits (omega (arith, i.in_range)),
  )

  parse_rule-range :
      (from to id : Bytes) (left right : ℕ)
      → IsIp inet_aton from left
      → IsIp inet_aton to right
      → IsId id
      → parse_rule inet_aton (from ++ b'-' ∷ (to ++ b'-' ∷ id)) 2
        ≡ ok (record { ip_left = left; ip_right = right; tag = pos (digits_value 0 id) })
  unfolding parse_rule
  parse_rule-range from to id left right a b i = simp (
    strtok_r-append from (to ++ b'-' ∷ id) a.some_byte a.plain,
    a.reads,
    strtok_r-append to id b.some_byte b.plain,
    b.reads,
    strtok_r-IsPlain id i.some_digit (IsNumber-IsPlain id i.digits),
    tag_converting-IsNumber id i.some_digit i.digits (omega (arith, i.in_range)),
  )

  -- A text that `parse_rule` reads with one or two dashes adds its rule, where there is room.
  load_rule-adds :
      (loaded : List TagRule) (t : Bytes) (dash_count : ℕ) (rule : TagRule)
      → length loaded < max_rules
      → char_count t b'-' ≡ dash_count
      → (dash_count ≡ 1) ⊎ (dash_count ≡ 2)
      → parse_rule inet_aton t dash_count ≡ ok rule
      → load_rule inet_aton loaded t ≡ ok (loaded ++ rule ∷ [])
  unfolding load_rule
  load_rule-adds loaded t dash_count rule room counted few parsed = ground arith

  -- The body of the loop, by what `line_editor` leaves.
  pub load_line-string :
      (loaded : List TagRule) (buffer : Bytes) {real_start t : Bytes}
      → line_editor buffer ≡ some real_start
      → c_string real_start ≡ t
      → load_line inet_aton loaded buffer
        ≡ (if is_skipped t then ok loaded else load_rule inet_aton loaded t)
  unfolding load_line
  load_line-string loaded buffer e f = rw (e, f)

  is_skipped-IsWord : (t : Bytes) → t ≢ [] → IsWord t → is_skipped t ≡ false
  is_skipped-IsWord [] ne h = absurd (ne refl)
  is_skipped-IsWord (c ∷ t) ne h = ground (arith, h.0)

  -- The line of such a text is read as its rule.
  load_line-adds :
      (loaded : List TagRule) (t : Bytes) (rule : TagRule)
      → Fits inet_aton t
      → load_rule inet_aton loaded t ≡ ok (loaded ++ rule ∷ [])
      → load_line inet_aton loaded (buffered (t ++ b'\n' ∷ [])) ≡ ok (loaded ++ rule ∷ [])
  load_line-adds loaded t rule (ne, word, short) adds =
      let (real_start, edited, string) = line_editor-IsWord t ne word short in
      load_line-string loaded _ edited string ∙ rw (is_skipped-IsWord t ne word) adds

  pub load_line-comment :
      (loaded : List TagRule) (blanks text : Bytes)
      → AreBlank blanks
      → load_line inet_aton loaded (buffered (blanks ++ b'#' ∷ text)) ≡ ok loaded
  load_line-comment loaded blanks text h =
      let zeros : Bytes = replicate (max_line_length - length (blanks ++ b'#' ∷ text)) 0 in
      let found = first_word-AreBlank blanks b'#' (text ++ zeros) h (omega arith) refl in
      rw (append_assoc blanks (b'#' ∷ text) zeros)
        (load_line-string loaded _ (line_editor-edit _ found) refl)

  load_line-empty :
      (loaded : List TagRule) (blanks : Bytes)
      → AreBlank blanks
      → load_line inet_aton loaded (buffered (blanks ++ b'\n' ∷ [])) ≡ ok loaded
  load_line-empty loaded blanks h =
      let zeros : Bytes = replicate (max_line_length - length (blanks ++ b'\n' ∷ [])) 0 in
      let found = first_word-AreBlank blanks b'\n' zeros h (omega arith) refl in
      rw (append_assoc blanks (b'\n' ∷ []) zeros)
        (load_line-string loaded _ (line_editor-edit _ found) refl)

  -- A well-written line is read as its rules, where there is room for them.
  load_line-Line :
      (loaded : List TagRule) (l : Line)
      → IsWritten inet_aton l
      → length (loaded ++ rules_of l) ≤ max_rules
      → load_line inet_aton loaded (buffered (text_of l ++ b'\n' ∷ [])) ≡ ok (loaded ++ rules_of l)
  unfolding text_of
  load_line-Line loaded (range from to id left right) (a, b, i) room =
      load_line-adds loaded _ _ (Fits-range inet_aton from to id left right a b i) (
        load_rule-adds loaded _ 2 _
          (omega (arith, length-append loaded (rules_of (range from to id left right))))
          (omega (
            arith,
            char_count_dash from (to ++ b'-' ∷ id) a.plain,
            char_count_dash to id b.plain,
            char_count-IsPlain id (IsNumber-IsPlain id i.digits),
          ))
          (inr refl) (parse_rule-range from to id left right a b i))
  load_line-Line loaded (single ip id address) (a, i) room =
      load_line-adds loaded _ _ (Fits-single inet_aton ip id address a i) (
        load_rule-adds loaded _ 1 _
          (omega (arith, length-append loaded (rules_of (single ip id address))))
          (omega (
            arith,
            char_count_dash ip id a.plain,
            char_count-IsPlain id (IsNumber-IsPlain id i.digits),
          ))
          (inl refl) (parse_rule-single ip id address a i))
  load_line-Line loaded (comment blanks text) (h, plain, short) room =
      rw (append-nil, append_assoc blanks (b'#' ∷ text) (b'\n' ∷ []))
        (load_line-comment loaded blanks (text ++ b'\n' ∷ []) h)
  load_line-Line loaded (empty blanks) (h, short) room =
      rw append-nil (load_line-empty loaded blanks h)

  pub load_lines_cons :
      (loaded : List TagRule) (line : Bytes) (rest : List Bytes) {loaded' : List TagRule}
      → load_line inet_aton loaded (buffered line) ≡ ok loaded'
      → load_lines inet_aton loaded (line ∷ rest) ≡ load_lines inet_aton loaded' rest
  unfolding load_lines
  load_lines_cons loaded line rest e = rw e

  load_lines-file :
      (ls : List Line) (loaded : List TagRule)
      → All (IsWritten inet_aton) ls
      → length (loaded ++ all_rules ls) ≤ max_rules
      → load_lines inet_aton loaded (lines false (file_of ls)) ≡ ok (loaded ++ all_rules ls)
  load_lines-file [] loaded h room = unfold load_lines gets in rw append-nil
  load_lines-file (l ∷ ls) loaded h room =
      let (plain, short) = Line-IsOneLine inet_aton l h.0 in
      let room' : length ((loaded ++ rules_of l) ++ all_rules ls) ≤ max_rules =
        rw (append_assoc loaded (rules_of l) (all_rules ls)) room in
      rw (lines_cons (text_of l) (file_of ls) plain short) (
        load_lines_cons loaded (text_of l ++ b'\n' ∷ []) (lines false (file_of ls)) (
          load_line-Line loaded l h.0
            (omega (arith, length-append (loaded ++ rules_of l) (all_rules ls))))
        ∙ load_lines-file ls (loaded ++ rules_of l) h.1 room'
        ∙ ap ok (append_assoc loaded (rules_of l) (all_rules ls)))

  -- A file of well-written lines, with at most 128 rules, valid together, is loaded as exactly those
  -- rules in their order; comments and blank lines count for nothing. A written rule needs at most
  -- the 36 bytes that `line_editor` looks at in front of the newline.
  pub tag_rules_load-file :
      (ls : List Line)
      → All (IsWritten inet_aton) ls
      → length (all_rules ls) ≤ max_rules
      → Valid (all_rules ls)
      → tag_rules_load inet_aton (opened (file_of ls) false false) ≡ ok (all_rules ls)
  unfolding tag_rules_load finish_load
  tag_rules_load-file ls h room valid =
      rw (load_lines-file ls [] h room) (ground (arith, Valid-validate_rules (all_rules ls) valid))
