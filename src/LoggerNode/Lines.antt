-- ===== src/LoggerNode/Lines.antt =====
-- nodes/src/logger_node.c: the lines of a dump, and their lengths.
use vlan_tagger.Prelude.{
  ℕ, zero, suc, ◌+◌, ◌<◌, ◌≡◌, ap, subst, ◌∙◌, sym, inl, inr, true, [], ◌∷◌, ◌++◌, ltb,
  if◌then◌else◌, arith, Bytes, length, drop, drop-drop, length-drop, Bool-cases,
}
use vlan_tagger.Frame.{at}
use vlan_tagger.LoggerNode.{Dump, append, hex4, hex_columns, ascii_columns, dump_line, dump_lines}
use vlan_tagger.LoggerNode.Adds.{
  Adds, append-Adds, nothing-Adds, Adds-then, drop-lt, drop-ge, hex_cells, characters,
  hex_columns-Adds, ascii_columns-Adds,
}

-- The line of at most 16 bytes whose first one has the number `i`.
abbrev pub text_line : ℕ → Bytes → Bytes
text_line i bs =
    (hex4 i ++ 58 ∷ 32 ∷ [])
    ++ (hex_cells 16 bs ++ ((32 ∷ 124 ∷ []) ++ (characters 16 bs ++ 124 ∷ [])))

-- What stands between two lines.
abbrev pub newline : Bytes → Bytes
newline bs = if ltb 16 (length bs) then 10 ∷ [] else []

-- The lines of some bytes, at most as many as the first argument says.
abbrev pub text_lines : ℕ → ℕ → Bytes → Bytes
text_lines zero i bs = []
text_lines (suc k) i [] = []
text_lines (suc k) i (c ∷ bs) =
    (text_line i (c ∷ bs) ++ newline (c ∷ bs)) ++ text_lines k (i + 16) (drop 16 (c ∷ bs))

module _ (p buffer : Bytes) (same : (k : ℕ) → k < length p → at buffer k ≡ at p k) where
  abbrev bar : ℕ → Dump → Dump
  bar i d = append (124 ∷ []) (
      ascii_columns buffer (length p) i 0 16 (
        append (32 ∷ 124 ∷ [])
          (hex_columns buffer (length p) i 0 16 (append (hex4 i ++ 58 ∷ 32 ∷ []) d))))

  bar-Adds : (i : ℕ) → Adds (bar i) (text_line i (drop i p))
  bar-Adds i =
      let hex = hex_columns buffer (length p) i 0 16 in
      let ascii = ascii_columns buffer (length p) i 0 16 in
      let here : i + 0 ≡ i = omega arith in
      let numbers =
        subst (λ n. Adds hex (hex_cells 16 (drop n p))) here
          (hex_columns-Adds p buffer same 16 i 0) in
      let letters =
        subst (λ n. Adds ascii (characters 16 (drop n p))) here
          (ascii_columns-Adds p buffer same 16 i 0) in
      let number = append (hex4 i ++ 58 ∷ 32 ∷ []) in
      let left_bar = append (32 ∷ 124 ∷ []) in
      let right_bar = append (124 ∷ []) in
      Adds-then number (λ d. right_bar (ascii (left_bar (hex d))))
        (append-Adds (hex4 i ++ 58 ∷ 32 ∷ []))
        (Adds-then hex (λ d. right_bar (ascii (left_bar d))) numbers
          (Adds-then left_bar (λ d. right_bar (ascii d)) (append-Adds (32 ∷ 124 ∷ []))
            (Adds-then ascii right_bar letters (append-Adds (124 ∷ [])))))

  more_bytes :
      (i : ℕ) → ltb i (length p) ≡ true → ltb (i + 16) (length p) ≡ ltb 16 (length (drop i p))
  more_bytes i h = ground (arith, length-drop i p)

  dump_line-Adds :
      (i : ℕ)
      → ltb i (length p) ≡ true
      → Adds (dump_line buffer (length p) i) (text_line i (drop i p) ++ newline (drop i p))
  unfolding dump_line
  dump_line-Adds i h = elim (Bool-cases (ltb 16 (length (drop i p)))) [
    | inl more ↦
        rw (more_bytes i h, more)
          (Adds-then (bar i) (append (10 ∷ [])) (bar-Adds i) (append-Adds (10 ∷ [])))
    | inr last ↦ rw (more_bytes i h, last) (Adds-then (bar i) (λ d. d) (bar-Adds i) nothing-Adds)
  ]

  pub dump_lines-Adds :
      (fuel i : ℕ) → Adds (dump_lines fuel buffer (length p) i) (text_lines fuel i (drop i p))
  unfolding dump_lines
  dump_lines-Adds zero i = nothing-Adds
  dump_lines-Adds (suc fuel) i = elim (Bool-cases (ltb i (length p))) [
    | inl more ↦
        let inside : i < length p = ground arith in
        let line = dump_line buffer (length p) i in
        let next = dump_lines fuel buffer (length p) (i + 16) in
        let start : drop i p ≡ at p i ∷ drop (suc i) p = drop-lt p i inside in
        let later = dump_lines-Adds fuel (i + 16) in
        let this = dump_line-Adds i more in
        rw (more, start)
          (Adds-then line next (subst (λ bs. Adds line (text_line i bs ++ newline bs)) start this) (
            subst (λ bs. Adds next (text_lines fuel (i + 16) bs))
              ((sym (drop-drop 16 i p)) ∙ ap (drop 16) start) later))
    | inr done ↦
        let behind : drop i p ≡ [] = drop-ge p i (ground arith) in rw (done, behind) nothing-Adds
  ]
