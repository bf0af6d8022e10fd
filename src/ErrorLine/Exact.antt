-- ===== src/ErrorLine/Exact.antt =====
-- src/io.c: `IO_print_error` shows the line of a file that it is asked for.
use luka.Prelude.{
  ℕ, suc, ◌-◌, ◌==◌, ◌≡◌, refl, sym, ap, ◌∙◌, some, false, List, [], ◌∷◌, ◌++◌, Bytes, All, length,
  take, append_assoc, arith,
}
use luka.ErrorLine.{skip_lines, line_length, line_of, error_line}
use luka.Files.{c_string, file_contents}
use luka.ReturnCode.{ok}

-- A line without its newline, as the text of a C string.
abbrev pub Plain : Bytes → Type 0
Plain l = All (λ c. ((c == b'\n') ≡ false) × ((c == 0) ≡ false)) l

-- Lines, each with its newline.
abbrev pub write_lines : List Bytes → Bytes
write_lines [] = []
write_lines (l ∷ ls) = l ++ (b'\n' ∷ write_lines ls)

skip_lines-line :
    (k : ℕ) (l s : Bytes) → Plain l → skip_lines (suc k) (l ++ (b'\n' ∷ s)) ≡ skip_lines k s
unfolding skip_lines
skip_lines-line k [] s h = refl
skip_lines-line k (c ∷ l) s h = rw h.0.0 (skip_lines-line k l s h.1)

skip_lines-zero : (s : Bytes) → skip_lines 0 s ≡ s
unfolding skip_lines
skip_lines-zero [] = refl
skip_lines-zero (c ∷ s) = refl

-- The lines in front are passed.
skip_lines-write_lines :
    (ls : List Bytes) (s : Bytes) → All Plain ls → skip_lines (length ls) (write_lines ls ++ s) ≡ s
skip_lines-write_lines [] s h = skip_lines-zero s
skip_lines-write_lines (l ∷ ls) s h =
    ap (skip_lines (suc (length ls))) (append_assoc l (b'\n' ∷ write_lines ls) s)
    ∙ skip_lines-line (length ls) l (write_lines ls ++ s) h.0
    ∙ skip_lines-write_lines ls s h.1

take-line :
    (l after : Bytes)
    → Plain l
    → take (line_length (l ++ (b'\n' ∷ after))) (l ++ (b'\n' ∷ after)) ≡ l ++ (b'\n' ∷ [])
unfolding line_length
take-line [] after h = refl
take-line (c ∷ l) after h = rw h.0.0 (ap (λ x. c ∷ x) (take-line l after h.1))

take-last : (l : Bytes) → Plain l → take (line_length l) l ≡ l
unfolding line_length
take-last [] h = refl
take-last (c ∷ l) h = rw h.0.0 (ap (λ x. c ∷ x) (take-last l h.1))

c_string-line : (l s : Bytes) → Plain l → c_string (l ++ s) ≡ l ++ c_string s
unfolding c_string
c_string-line [] s h = refl
c_string-line (c ∷ l) s h = rw h.0.1 (ap (λ x. c ∷ x) (c_string-line l s h.1))

c_string-write_lines :
    (ls : List Bytes) (s : Bytes)
    → All Plain ls
    → c_string (write_lines ls ++ s) ≡ write_lines ls ++ c_string s
unfolding c_string
c_string-write_lines [] s h = refl
c_string-write_lines (l ∷ ls) s h =
    ap c_string (append_assoc l (b'\n' ∷ write_lines ls) s)
    ∙ c_string-line l (b'\n' ∷ (write_lines ls ++ s)) h.0
    ∙ ap (λ x. l ++ (b'\n' ∷ x)) (c_string-write_lines ls s h.1)
    ∙ sym (append_assoc l (b'\n' ∷ write_lines ls) (c_string s))

Plain-marked : (l : Bytes) → Plain l → Plain (l ++ (255 ∷ []))
Plain-marked [] h = ((refl, refl), tt)
Plain-marked (c ∷ l) h = (h.0, Plain-marked l h.1)

-- The line of the contents behind the lines `before`.
line_of-write_lines :
    (before : List Bytes) (rest : Bytes)
    → All Plain before
    → line_of (suc (length before)) (write_lines before ++ rest) ≡ take (line_length rest) rest
unfolding line_of
line_of-write_lines before rest h =
    let rounds : suc (length before) - 1 ≡ length before = omega arith in
    ap (λ k. show (skip_lines k (write_lines before ++ rest))) rounds
    ∙ ap show (skip_lines-write_lines before rest h)
  where
    show : Bytes → Bytes
    show x = take (line_length x) x

-- What is shown of a file for a number is the line that stands behind one line less than that, with its
-- newline. If it is the last one and has no newline, the byte 255 of EOF is shown behind it. There is no
-- null byte in the lines up to there.
pub error_line-write_lines :
    (before : List Bytes) (l after : Bytes)
    → All Plain before
    → Plain l
    → (error_line (suc (length before)) (some (write_lines before ++ (l ++ (b'\n' ∷ after))))
        ≡ ok (l ++ (b'\n' ∷ [])))
      × (error_line (suc (length before)) (some (write_lines before ++ l)) ≡ ok (l ++ (255 ∷ [])))
unfolding error_line file_contents c_string
error_line-write_lines before l after hb hl =
    let number = suc (length before) in
    let end : Bytes = c_string (after ++ (255 ∷ [])) in
    (
      ap (λ x. ok (line_of number (c_string x)))
            (append_assoc (write_lines before) (l ++ (b'\n' ∷ after)) (255 ∷ [])
              ∙ ap (λ x. write_lines before ++ x) (append_assoc l (b'\n' ∷ after) (255 ∷ [])))
          ∙ ap (λ x. ok (line_of number x))
              (c_string-write_lines before (l ++ (b'\n' ∷ (after ++ (255 ∷ [])))) hb
                ∙ ap (λ x. write_lines before ++ x)
                    (c_string-line l (b'\n' ∷ (after ++ (255 ∷ []))) hl))
          ∙ ap ok (line_of-write_lines before (l ++ (b'\n' ∷ end)) hb ∙ take-line l end hl),
      ap (λ x. ok (line_of number (c_string x))) (append_assoc (write_lines before) l (255 ∷ []))
          ∙ ap (λ x. ok (line_of number x))
              (c_string-write_lines before (l ++ (255 ∷ [])) hb
                ∙ ap (λ x. write_lines before ++ x) (c_string-line l (255 ∷ []) hl))
          ∙ ap ok (
              line_of-write_lines before (l ++ (255 ∷ [])) hb
              ∙ take-last (l ++ (255 ∷ [])) (Plain-marked l hl)),
    )
