-- ===== src/Blanklines/Gap/Source.antt =====
-- The lines that `checkFile` finds between two places of a source are blank lines of the source there.
use medik8s_system_tests.Base.{
  ℕ, zero, suc, ◌+◌, ◌-◌, ◌<◌, ◌≤◌, ◌≡◌, refl, sym, ap, ◌∙◌, true, [], ◌∷◌, ◌++◌, take, drop, slice,
  All, All-map, arith, ◌==◌, nat_eq, Bool-cases, inl, inr, length, length-take, length-drop,
}
use medik8s_system_tests.Go.Strings.{Text, text_eq, split}
use medik8s_system_tests.Blanklines.{newline, newlines, line_start, gap_lines}
use medik8s_system_tests.Blanklines.Lines.{is_blank_line}
use medik8s_system_tests.Blanklines.Gap.{
  gap_lines-Found, is_blank_line_next, is_blank_line_same, line_start_next, line_start_same,
}

newlines-is_blank_line :
    (k : ℕ) (pre text : Text)
    → is_blank_line (newlines pre + suc k) (pre ++ text) ≡ is_blank_line (suc k) text
unfolding newlines
newlines-is_blank_line k [] text =
    let here : 0 + suc k ≡ suc k = omega arith in ap (λ n. is_blank_line n text) here
newlines-is_blank_line k (c ∷ pre) text = elim (Bool-cases (c == newline)) [
  | inl e ↦
      let next : suc (newlines pre) + suc k ≡ suc (newlines pre + suc k) = omega arith in
      rw e (
        ap (λ n. is_blank_line n (c ∷ (pre ++ text))) next
        ∙ is_blank_line_next (newlines pre + suc k) c (pre ++ text) e
        ∙ newlines-is_blank_line k pre text)
  | inr e ↦
      let move : newlines pre + suc k ≡ suc (newlines pre + k) = omega arith in
      rw e (
        ap (λ n. is_blank_line n (c ∷ (pre ++ text))) move
        ∙ is_blank_line_same (newlines pre + k) c (pre ++ text) e
        ∙ ap (λ n. is_blank_line n (pre ++ text)) (sym move)
        ∙ newlines-is_blank_line k pre text)
]

newlines-line_start :
    (k : ℕ) (pre text : Text)
    → line_start (newlines pre + suc k) (pre ++ text) ≡ length pre + line_start (suc k) text
unfolding newlines
newlines-line_start k [] text =
    let here : 0 + suc k ≡ suc k = omega arith in ap (λ n. line_start n text) here ∙ (omega arith)
newlines-line_start k (c ∷ pre) text = elim (Bool-cases (c == newline)) [
  | inl e ↦
      let next : suc (newlines pre) + suc k ≡ suc (newlines pre + suc k) = omega arith in
      rw e (
        ap (λ n. line_start n (c ∷ (pre ++ text))) next
        ∙ line_start_next (newlines pre + suc k) c (pre ++ text) e
        ∙ omega (arith, newlines-line_start k pre text))
  | inr e ↦
      let move : newlines pre + suc k ≡ suc (newlines pre + k) = omega arith in
      rw e (
        ap (λ n. line_start n (c ∷ (pre ++ text))) move
        ∙ line_start_same (newlines pre + k) c (pre ++ text) e
        ∙ ap (λ n. suc (line_start n (pre ++ text))) (sym move)
        ∙ omega (arith, newlines-line_start k pre text))
]

take-append-drop : (n : ℕ) (text : Text) → take n text ++ drop n text ≡ text
unfolding take drop
take-append-drop zero text = refl
take-append-drop (suc n) [] = refl
take-append-drop (suc n) (c ∷ text) = ap (λ t. c ∷ t) (take-append-drop n text)

length-take_le :
    (n : ℕ) (text : Text) → (length (take n text) ≤ n) × (length (take n text) ≤ length text)
unfolding take
length-take_le zero text = omega arith
length-take_le (suc n) [] = omega arith
length-take_le (suc n) (c ∷ text) = omega (arith, length-take_le n text)

line_start-positive :
    (k : ℕ) (text : Text) → is_blank_line (suc k) text ≡ true → 0 < line_start (suc k) text
unfolding line_start is_blank_line
line_start-positive k [] h = absurd (ground (arith, h))
line_start-positive k (c ∷ text) h = omega arith

-- A blank line of the source that starts between two places of it.
abbrev pub Between : (source : Text) → (start finish line : ℕ) → Type 0
Between source start finish line =
    (is_blank_line (line - 1) source ≡ true)
    × (start < line_start (line - 1) source)
    × (line_start (line - 1) source < finish)

-- The lines that are found between two places of a source are blank lines of the source there.
pub gap_lines-Between :
    (source : Text) (start finish : ℕ)
    → All
        (Between source start finish)
        (gap_lines (1 + newlines (take start source)) (split newline (slice start finish source)))
unfolding slice
gap_lines-Between source start finish =
    let pre = take start source in
    let rest = drop start source in
    let gap = slice start finish source in
    let post = drop (finish - start) rest in
    let whole : pre ++ (gap ++ post) ≡ source =
      ap (λ t. pre ++ t) (take-append-drop (finish - start) rest) ∙ take-append-drop start source in
    All-map (gap_lines (1 + newlines pre) (split newline gap))
      (λ n (k, at, blank, inside).
        let number : n - 1 ≡ newlines pre + suc k = omega (arith, at) in
        let here : line_start (n - 1) source ≡ length pre + line_start (suc k) (gap ++ post) =
          ap (λ m. line_start m source) number
          ∙ ap (line_start (newlines pre + suc k)) (sym whole)
          ∙ newlines-line_start k pre (gap ++ post) in
        let (short, fits) = length-take_le (finish - start) rest in
        let reaches : start ≤ length source =
          omega (arith, inside, fits, length-drop start source) in
        let full : length pre ≡ start = length-take start source reaches in
        (
          ap (λ m. is_blank_line m source) number
              ∙ ap (is_blank_line (newlines pre + suc k)) (sym whole)
              ∙ newlines-is_blank_line k pre (gap ++ post)
              ∙ blank,
          omega (arith, here, full, line_start-positive k (gap ++ post) blank),
          omega (arith, here, full, inside, short),
        ))
      (gap_lines-Found (1 + newlines pre) gap post)
