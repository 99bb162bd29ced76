-- ===== src/Blanklines/Gap.antt =====
-- The lines that `checkFile` finds in a gap are blank.
pub mod Source
pub mod Order
use medik8s_system_tests.Base.{
  ℕ, zero, suc, ◌+◌, ◌-◌, ◌<◌, ◌≤◌, ◌≡◌, refl, sym, ap, ◌∙◌, subst, Bool, true, false, List, [],
  ◌∷◌, ◌++◌, take, drop, slice, All, All-map, arith, ◌==◌, nat_eq, Bool-cases, inl, inr, ◌&&◌,
  length, length-take, length-drop,
}
use medik8s_system_tests.Go.Strings.{Text, text_eq, text_beq_iff, split, trim_by, is_space}
use medik8s_system_tests.Go.Trim.{trim_by-nil}
use medik8s_system_tests.Go.Split.{split_cons}
use medik8s_system_tests.Blanklines.{newline, newlines, line_start, blank_lines, gap_lines}
use medik8s_system_tests.Blanklines.Lines.{is_blank, is_blank_line}

abbrev first_of : List Text → Text
first_of [] = []
first_of (part ∷ parts) = part

abbrev has_more : List Text → Bool
has_more [] = false
has_more (part ∷ []) = false
has_more (part ∷ next ∷ parts) = true

-- A first part that holds only white space, and is not the last, is a blank line.
first_of-is_blank :
    (text post : Text)
    → All (λ c. is_space c ≡ true) (first_of (split newline text))
    → has_more (split newline text) ≡ true
    → is_blank (text ++ post) ≡ true
unfolding split is_blank
first_of-is_blank [] post = λ h more. absurd (ground (arith, more))
first_of-is_blank (c ∷ text) post = elim (Bool-cases (c == newline)) [
  | inl e ↦ rw e (λ h more. refl)
  | inr e ↦
      let (part, parts, s) = split_cons newline text in
      let rest : All (λ c. is_space c ≡ true) part
          → has_more (part ∷ parts) ≡ true
          → is_blank (text ++ post) ≡ true =
        subst
          (λ t.
            All (λ c. is_space c ≡ true) (first_of t)
            → has_more t ≡ true
            → is_blank (text ++ post) ≡ true)
          s (first_of-is_blank text post) in
      rw (e, s) (longer c part parts (is_blank (text ++ post)) rest)
]
  where
    longer :
        (c : ℕ) (part : Text) (parts : List Text) (later : Bool)
        → (All (λ c. is_space c ≡ true) part → has_more (part ∷ parts) ≡ true → later ≡ true)
        → All (λ c. is_space c ≡ true) (c ∷ part)
        → has_more ((c ∷ part) ∷ parts) ≡ true
        → (is_space c && later) ≡ true
    longer c part [] later rest h more = absurd (ground (arith, more))
    longer c part (next ∷ parts) later rest (here, h) more = ground (arith, here, rest h more)

-- A line that is found stands at its number in what follows the line `before`, and starts in the first
-- `size` bytes of it.
abbrev pub Found : (before size : ℕ) → Text → ℕ → Type 0
Found before size text n =
    (k : ℕ) × (n ≡ before + suc k)
    × (is_blank_line (suc k) text ≡ true)
    × (line_start (suc k) text < size)

pub is_blank_line_same :
    (k c : ℕ) (text : Text)
    → (c == newline) ≡ false
    → is_blank_line (suc k) (c ∷ text) ≡ is_blank_line (suc k) text
unfolding is_blank_line
is_blank_line_same k c text e = rw e refl

pub is_blank_line_next :
    (k c : ℕ) (text : Text)
    → (c == newline) ≡ true
    → is_blank_line (suc k) (c ∷ text) ≡ is_blank_line k text
unfolding is_blank_line
is_blank_line_next k c text e = rw e refl

pub line_start_same :
    (k c : ℕ) (text : Text)
    → (c == newline) ≡ false
    → line_start (suc k) (c ∷ text) ≡ suc (line_start (suc k) text)
unfolding line_start
line_start_same k c text e = rw e refl

pub line_start_next :
    (k c : ℕ) (text : Text)
    → (c == newline) ≡ true
    → line_start (suc k) (c ∷ text) ≡ suc (line_start k text)
unfolding line_start
line_start_next k c text e = rw e refl

Found-same :
    (before c size : ℕ) (text : Text) (lines : List ℕ)
    → (c == newline) ≡ false
    → All (Found before size text) lines
    → All (Found before (suc size) (c ∷ text)) lines
Found-same before c size text lines e = All-map lines (λ n (k, at, blank, inside). (
  k,
  at,
  is_blank_line_same k c text e ∙ blank,
  omega (arith, inside, line_start_same k c text e),
))

Found-next :
    (before c size : ℕ) (text : Text) (lines : List ℕ)
    → (c == newline) ≡ true
    → All (Found (suc before) size text) lines
    → All (Found before (suc size) (c ∷ text)) lines
Found-next before c size text lines e = All-map lines (λ n (k, at, blank, inside). (
  suc k,
  omega (arith, at),
  is_blank_line_next (suc k) c text e ∙ blank,
  omega (arith, inside, line_start_next (suc k) c text e),
))

has_more-length : (text : Text) → has_more (split newline text) ≡ true → 0 < length text
unfolding split
has_more-length [] more = absurd (ground (arith, more))
has_more-length (c ∷ text) more = omega arith

-- The first line of a text, behind the end of another.
gap_next :
    (before c : ℕ) (text post part : Text) (parts : List Text)
    → (c == newline) ≡ true
    → split newline text ≡ part ∷ parts
    → All (Found (suc before) (length text) (text ++ post)) (gap_lines (suc before) (part ∷ parts))
    → All
        (Found before (suc (length text)) (c ∷ (text ++ post)))
        (blank_lines (suc before) (part ∷ parts))
unfolding gap_lines blank_lines
gap_next before c text post part [] e s later = tt
gap_next before c text post part (next ∷ parts) e s later =
    let rest =
      Found-next before c (length text) (text ++ post)
        (blank_lines (suc (suc before)) (next ∷ parts)) e later in
    elim (Bool-cases (trim_by is_space part == [])) [
      | inl t ↦
          let space = trim_by-nil is_space part ((text_beq_iff (trim_by is_space part) []).0 t) in
          let blank : is_blank (text ++ post) ≡ true =
            first_of-is_blank text post
              (subst (λ l. All (λ d. is_space d ≡ true) (first_of l)) (sym s) space)
              (ap has_more s) in
          let here : is_blank_line 1 (c ∷ (text ++ post)) ≡ true =
            is_blank_line_next 0 c (text ++ post) e ∙ (unfold is_blank_line in blank) in
          let first : line_start 1 (c ∷ (text ++ post)) ≡ 1 =
            line_start_next 0 c (text ++ post) e ∙ (unfold line_start in refl) in
          rw t (
            (0, omega arith, here, omega (arith, first, has_more-length text (ap has_more s))),
            rest,
          )
      | inr t ↦ rw t rest
    ]

-- The blank lines of a gap.
pub gap_lines-Found :
    (before : ℕ) (text post : Text)
    → All (Found before (length text) (text ++ post)) (gap_lines before (split newline text))
unfolding gap_lines split
gap_lines-Found before [] post = unfold blank_lines in tt
gap_lines-Found before (c ∷ text) post =
    let (part, parts, s) = split_cons newline text in
    let found : (n : ℕ) → All (Found n (length text) (text ++ post)) (gap_lines n (part ∷ parts)) =
      λ n.
        subst (λ l. All (Found n (length text) (text ++ post)) (gap_lines n l)) s
          (gap_lines-Found n text post) in
    elim (Bool-cases (c == newline)) [
      | inl e ↦ rw (e, s) (gap_next before c text post part parts e s (found (suc before)))
      | inr e ↦
          rw (e, s)
            (Found-same before c (length text) (text ++ post) (blank_lines (suc before) parts) e
              (found before))
    ]
