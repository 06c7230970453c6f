-- ===== src/LoggerNode/Adds.antt =====
-- nodes/src/logger_node.c: what the pieces of `log_packet_hex` add to the text, where there is room.
use vlan_tagger.Prelude.{
  ℕ, zero, suc, ◌+◌, ◌-◌, ◌≤◌, ◌<◌, ◌≡◌, refl, ap, subst, ◌∙◌, sym, inl, inr, false, [], ◌∷◌, ◌++◌,
  append_assoc, append-nil, leb, ltb, arith, Bytes, length, drop, length-append, Bool-cases,
}
use vlan_tagger.Frame.{at}
use vlan_tagger.LoggerNode.{Dump, filling, append, hex2, shown, hex_columns, ascii_columns}

-- A step of the dump that puts a text behind what is in place, if both fit.
abbrev pub Adds : (Dump → Dump) → Bytes → Type 0
Adds step s = (t : Bytes) → length t + length s < 8192 → step (filling t) ≡ filling (t ++ s)

pub append-Adds : (s : Bytes) → Adds (append s) s
append-Adds s t h = let room : leb (8192 - length t) (length s) ≡ false = ground arith in rw room

pub nothing-Adds : Adds (λ d. d) []
nothing-Adds t h = ap filling (sym (append-nil t))

pub Adds-then :
    (f g : Dump → Dump) {s s' : Bytes} → Adds f s → Adds g s' → Adds (λ d. g (f d)) (s ++ s')
Adds-then f g {s} {s'} first second t h =
    let total = length-append s s' in
    ap g (first t (omega (arith, total)))
    ∙ second (t ++ s) (omega (arith, total, length-append t s))
    ∙ ap filling (append_assoc t s s')

-- The last bytes of a list, from a place in it or behind it.
pub drop-lt : (p : Bytes) (n : ℕ) → n < length p → drop n p ≡ at p n ∷ drop (suc n) p
drop-lt [] n h = absurd (omega arith)
drop-lt (c ∷ p) zero h = refl
drop-lt (c ∷ p) (suc n) h = drop-lt p n (omega arith)

pub drop-ge : (p : Bytes) (n : ℕ) → length p ≤ n → drop n p ≡ []
drop-ge [] zero h = refl
drop-ge [] (suc n) h = refl
drop-ge (c ∷ p) zero h = absurd (omega arith)
drop-ge (c ∷ p) (suc n) h = drop-ge p n (omega arith)

-- The columns of some bytes: their numbers, with blanks where there are too few, and their characters.
abbrev pub hex_cells : ℕ → Bytes → Bytes
hex_cells zero bs = []
hex_cells (suc k) [] = (32 ∷ 32 ∷ 32 ∷ []) ++ hex_cells k []
hex_cells (suc k) (c ∷ bs) = (hex2 c ++ 32 ∷ []) ++ hex_cells k bs

abbrev pub characters : ℕ → Bytes → Bytes
characters zero bs = []
characters (suc k) [] = []
characters (suc k) (c ∷ bs) = (shown c ∷ []) ++ characters k bs

-- A packet, and a buffer with the packet in its first bytes.
module _ (p buffer : Bytes) (same : (k : ℕ) → k < length p → at buffer k ≡ at p k) where
  pub hex_columns-Adds :
      (left i j : ℕ)
      → Adds (hex_columns buffer (length p) i j left) (hex_cells left (drop (i + j) p))
  unfolding hex_columns
  hex_columns-Adds zero i j = nothing-Adds
  hex_columns-Adds (suc left) i j =
      let next : i + (j + 1) ≡ suc (i + j) = omega arith in
      let columns = hex_columns buffer (length p) i (j + 1) left in
      let later =
        subst (λ n. Adds columns (hex_cells left (drop n p))) next
          (hex_columns-Adds left i (j + 1)) in
      elim (Bool-cases (ltb (i + j) (length p))) [
        | inl more ↦
            let inside : i + j < length p = ground arith in
            rw (more, drop-lt p (i + j) inside, same (i + j) inside)
              (Adds-then (append (hex2 (at p (i + j)) ++ 32 ∷ [])) columns
                (append-Adds (hex2 (at p (i + j)) ++ 32 ∷ [])) later)
        | inr over ↦
            let behind : drop (i + j) p ≡ [] = drop-ge p (i + j) (ground arith) in
            let behind' : drop (suc (i + j)) p ≡ [] = drop-ge p (suc (i + j)) (ground arith) in
            rw (over, behind)
              (Adds-then (append (32 ∷ 32 ∷ 32 ∷ [])) columns (append-Adds (32 ∷ 32 ∷ 32 ∷ []))
                (subst (λ bs. Adds columns (hex_cells left bs)) behind' later))
      ]

  pub ascii_columns-Adds :
      (left i j : ℕ)
      → Adds (ascii_columns buffer (length p) i j left) (characters left (drop (i + j) p))
  unfolding ascii_columns
  ascii_columns-Adds zero i j = nothing-Adds
  ascii_columns-Adds (suc left) i j =
      let next : i + (j + 1) ≡ suc (i + j) = omega arith in
      let columns = ascii_columns buffer (length p) i (j + 1) left in
      let later =
        subst (λ n. Adds columns (characters left (drop n p))) next
          (ascii_columns-Adds left i (j + 1)) in
      elim (Bool-cases (ltb (i + j) (length p))) [
        | inl more ↦
            let inside : i + j < length p = ground arith in
            rw (more, drop-lt p (i + j) inside, same (i + j) inside)
              (Adds-then (append (shown (at p (i + j)) ∷ [])) columns
                (append-Adds (shown (at p (i + j)) ∷ [])) later)
        | inr over ↦
            let behind : drop (i + j) p ≡ [] = drop-ge p (i + j) (ground arith) in
            rw (over, behind) nothing-Adds
      ]
