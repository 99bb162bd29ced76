-- ===== src/Blanklines/Gap/Order.antt =====
-- The lines that `checkFile` finds in a gap come in their order.
use medik8s_system_tests.Base.{
  ℕ, suc, ◌<◌, ◌≤◌, List, [], ◌∷◌, All, All-map, arith, ◌==◌, nat_eq, Bool-cases, inl, inr,
}
use medik8s_system_tests.Go.Strings.{Text, text_eq, trim_by, is_space}
use medik8s_system_tests.Blanklines.{blank_lines, gap_lines}

-- The numbers of the lines that are found increase.
abbrev pub Increasing : List ℕ → Type 0
Increasing [] = Unit
Increasing (n ∷ lines) = All (λ m. n < m) lines × Increasing lines

blank_lines-above : (line : ℕ) (texts : List Text) → All (λ m. line ≤ m) (blank_lines line texts)
unfolding blank_lines
blank_lines-above line [] = tt
blank_lines-above line (text ∷ []) = tt
blank_lines-above line (text ∷ next ∷ texts) =
    let later =
      All-map (blank_lines (suc line) (next ∷ texts)) (λ m h. omega (arith, h))
        (blank_lines-above (suc line) (next ∷ texts)) in
    elim (Bool-cases (trim_by is_space text == [])) [
      | inl e ↦ rw e (omega arith, later)
      | inr e ↦ rw e later
    ]

blank_lines-Increasing : (line : ℕ) (texts : List Text) → Increasing (blank_lines line texts)
unfolding blank_lines
blank_lines-Increasing line [] = tt
blank_lines-Increasing line (text ∷ []) = tt
blank_lines-Increasing line (text ∷ next ∷ texts) =
    let later = blank_lines-Increasing (suc line) (next ∷ texts) in
    let above =
      All-map (blank_lines (suc line) (next ∷ texts)) (λ m h. omega (arith, h))
        (blank_lines-above (suc line) (next ∷ texts)) in
    elim (Bool-cases (trim_by is_space text == [])) [
      | inl e ↦ rw e (above, later)
      | inr e ↦ rw e later
    ]

pub gap_lines-Increasing : (line : ℕ) (texts : List Text) → Increasing (gap_lines line texts)
unfolding gap_lines
gap_lines-Increasing line [] = tt
gap_lines-Increasing line (first ∷ texts) = blank_lines-Increasing (suc line) texts
