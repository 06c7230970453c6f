-- ===== src/Config/Load/Faults.antt =====
-- config_parser/config_parser.c: two lines that the fixed sizes of the line buffer mishandle.
use vlan_tagger.Prelude.{
  ℕ, zero, suc, ◌+◌, ◌-◌, ◌<◌, ◌≡◌, ◌≢◌, refl, ap, ◌∙◌, Bool, false, List, [], ◌∷◌, ◌++◌, Option,
  none, some, arith, Bytes, length, replicate, All, append_assoc, length-append, length-replicate,
}
use vlan_tagger.Config.Text.{
  max_line_length, max_rule_content_length, first_word, is_stop, cut, edit, line_editor,
}
use vlan_tagger.Config.Load.{fault, gets, lines, buffered, opened, load_line, tag_rules_load}
use vlan_tagger.Config.Load.Pieces.{HasNoNewline, IsWord, gets-goes_on, gets-full, line_editor-edit}
use vlan_tagger.Config.Load.Format.{AreBlank}
use vlan_tagger.Config.Load.Reads.{load_line-comment, load_lines_cons, first_word-AreBlank}
use vlan_tagger.Config.{TagRule}

-- A line that fills the buffer is cut there, and the rest is read as a line of its own.
gets_filled :
    (broken : Bool) (t acc rest : Bytes) (room : ℕ)
    → HasNoNewline t
    → length t ≡ room
    → 0 < room
    → gets broken room acc (t ++ rest) ≡ (acc ++ t) ∷ lines broken rest
gets_filled broken [] acc rest room h e lt = absurd (omega arith)
gets_filled broken (c ∷ []) acc rest room h e lt = gets-full broken room acc c rest (ground arith)
gets_filled broken (c ∷ d ∷ t) acc rest room h e lt =
    gets-goes_on broken room acc c _ h.0 (omega arith)
    ∙ gets_filled broken (d ∷ t) (acc ++ c ∷ []) rest (room - 1) h.1 (omega arith) (omega arith)
    ∙ ap (λ l. l ∷ lines broken rest) (append_assoc acc (c ∷ []) (d ∷ t))

-- Without a stop byte the second loop of `line_editor` runs off a buffer shorter than 37 bytes.
cut-none : (n : ℕ) (s : Bytes) → All (λ c. is_stop c ≡ false) s → length s < n → cut n s ≡ none
cut-none zero s h lt = absurd (omega arith)
cut-none (suc n) [] h lt = refl
cut-none (suc n) (c ∷ s) h lt = rw (h.0, cut-none n s h.1 (omega arith))

IsWord-HasNoStop : (s : Bytes) → IsWord s → All (λ c. is_stop c ≡ false) s
IsWord-HasNoStop [] h = tt
IsWord-HasNoStop (c ∷ s) h = (h.0.0, IsWord-HasNoStop s h.1)

zeros-HasNoStop : (n : ℕ) → All (λ c. is_stop c ≡ false) (replicate n 0)
zeros-HasNoStop zero = tt
zeros-HasNoStop (suc n) = (refl, zeros-HasNoStop n)

HasNoStop-append :
    (s t : Bytes)
    → All (λ c. is_stop c ≡ false) s
    → All (λ c. is_stop c ≡ false) t
    → All (λ c. is_stop c ≡ false) (s ++ t)
HasNoStop-append [] t h k = k
HasNoStop-append (c ∷ s) t h k = (h.0, HasNoStop-append s t h.1 k)

-- The first loop stops at a word behind blanks.
first_word_blanks :
    (blanks word rest : Bytes)
    → AreBlank blanks
    → word ≢ []
    → IsWord word
    → first_word (blanks ++ (word ++ rest)) ≡ some (word ++ rest)
first_word_blanks blanks [] rest h ne w = absurd (ne refl)
first_word_blanks blanks (c ∷ word) rest h ne w =
    first_word-AreBlank blanks c (word ++ rest) h w.0.1 (ground (arith, w.0.0))

edit_runs_off :
    (word rest : Bytes)
    → word ≢ []
    → IsWord word
    → All (λ c. is_stop c ≡ false) (word ++ rest)
    → length (word ++ rest) < max_rule_content_length
    → edit (word ++ rest) ≡ none
edit_runs_off [] rest ne w h short = absurd (ne refl)
edit_runs_off (c ∷ word) rest ne w h short =
    ground (arith, w.0.0, cut-none max_rule_content_length (c ∷ word ++ rest) h short)

module _ (inet_aton : Bytes → Option ℕ) where
  -- Where a file begins with `#` and 98 more bytes without a newline, whatever stands behind
  -- these 99 bytes, on the same line, is loaded as if it stood in a file of its own: a longer
  -- comment is read as rules from there on.
  pub tag_rules_load-comment :
      (text rest : Bytes) (read_fails close_fails : Bool)
      → HasNoNewline text
      → length text ≡ 98
      → tag_rules_load inet_aton (opened (b'#' ∷ text ++ rest) read_fails close_fails)
        ≡ tag_rules_load inet_aton (opened rest read_fails close_fails)
  unfolding tag_rules_load
  tag_rules_load-comment text rest read_fails close_fails h e = rw (
    gets_filled read_fails (b'#' ∷ text) [] rest 99 ((λ q. omega arith), h) (omega arith)
        (omega arith),
    load_lines_cons inet_aton [] (b'#' ∷ text) (lines read_fails rest)
        (load_line-comment inet_aton [] [] text tt),
  )

  -- A line of less than 100 bytes that has no newline, and in which a word stands behind more
  -- than 63 blanks, makes `line_editor` read behind the end of the buffer, which is 100 bytes
  -- long: it looks at 37 bytes from the word on.
  pub load_line-fault :
      (loaded : List TagRule) (blanks word : Bytes)
      → AreBlank blanks
      → 63 < length blanks
      → word ≢ []
      → IsWord word
      → length blanks + length word < max_line_length
      → load_line inet_aton loaded (buffered (blanks ++ word)) ≡ fault
  unfolding load_line
  load_line-fault loaded blanks word h far ne w fits =
      let zeros : Bytes = replicate (max_line_length - length (blanks ++ word)) 0 in
      let short : length (word ++ zeros) < max_rule_content_length = omega (
        arith,
        length-append word zeros,
        length-append blanks word,
        length-replicate {A = ℕ} (max_line_length - length (blanks ++ word)) 0,
      ) in
      let no_stop = HasNoStop-append word zeros (IsWord-HasNoStop word w) (zeros-HasNoStop _) in
      let overrun : line_editor (blanks ++ (word ++ zeros)) ≡ none =
        line_editor-edit _ (first_word_blanks blanks word zeros h ne w)
        ∙ edit_runs_off word zeros ne w no_stop short in
      rw (append_assoc blanks word zeros, overrun)
