-- ===== src/Blanklines/Lines.antt =====
-- The lines of a text: where each starts, and what is left when one is taken out.
use medik8s_system_tests.Base.{
  ℕ, zero, suc, ◌<◌, ◌≡◌, refl, sym, ap, ◌∙◌, Bool, true, false, ◌&&◌, [], ◌∷◌, some, take, drop,
  arith, if◌then◌else◌, ◌==◌, nat_eq, Bool-cases, inl, inr,
}
use medik8s_system_tests.Go.Strings.{Text, is_space}
use medik8s_system_tests.Blanklines.{newline, line_start, after_newline, or_same, remove_line}

-- Whether the text has a first line that ends, and holds only white space.
unfoldable pub is_blank : Text → Bool
is_blank [] = false
is_blank (c ∷ text) =
    let later = is_blank text in if c == newline then true else is_space c && later

-- Whether the line behind so many others does.
unfoldable pub is_blank_line : ℕ → Text → Bool
unfolding is_blank
is_blank_line zero text = is_blank text
is_blank_line (suc n) [] = false
is_blank_line (suc n) (c ∷ text) =
    let next = is_blank_line n text in
    let here = is_blank_line (suc n) text in if c == newline then next else here

-- The text without the line behind so many others.
unfoldable pub delete_line : ℕ → Text → Text
unfolding after_newline
delete_line zero text = or_same text (after_newline text)
delete_line (suc n) [] = []
delete_line (suc n) (c ∷ text) =
    let next = delete_line n text in
    let here = delete_line (suc n) text in c ∷ (if c == newline then next else here)

-- A text without its white space.
unfoldable pub words : Text → Text
words [] = []
words (c ∷ text) = let rest = words text in if is_space c then rest else c ∷ rest

remove_line_cons : (p c : ℕ) (text : Text) → remove_line (suc p) (c ∷ text) ≡ c ∷ remove_line p text
unfolding remove_line take drop
remove_line_cons p c text = refl

-- What `removeBlankLines` takes out at the start of a line is that line.
pub remove_line-line_start :
    (n : ℕ) (text : Text) → remove_line (line_start n text) text ≡ delete_line n text
unfolding line_start delete_line
remove_line-line_start zero text = unfold remove_line take drop in refl
remove_line-line_start (suc n) [] = unfold remove_line take drop after_newline in refl
remove_line-line_start (suc n) (c ∷ text) = elim (Bool-cases (c == newline)) [
  | inl e ↦ rw e (
      remove_line_cons (line_start n text) c text ∙ ap (λ t. c ∷ t) (remove_line-line_start n text))
  | inr e ↦ rw e (
      remove_line_cons (line_start (suc n) text) c text
      ∙ ap (λ t. c ∷ t) (remove_line-line_start (suc n) text))
]

newline-is_space : (c : ℕ) → (c == newline) ≡ true → is_space c ≡ true
unfolding is_space
newline-is_space c e = ground (arith, e)

is_blank-after_newline :
    (text : Text) → is_blank text ≡ true → (rest : Text) × (after_newline text ≡ some rest)
unfolding after_newline is_blank
is_blank-after_newline [] = λ h. absurd (ground (arith, h))
is_blank-after_newline (c ∷ text) = elim (Bool-cases (c == newline)) [
  | inl e ↦ rw e (λ h. (text, refl))
  | inr e ↦ rw e (λ h. is_blank-after_newline text (ground (arith, h)))
]

words-after_newline :
    (text : Text) → is_blank text ≡ true → words (or_same text (after_newline text)) ≡ words text
unfolding words after_newline is_blank
words-after_newline [] = λ h. refl
words-after_newline (c ∷ text) = elim (Bool-cases (c == newline)) [
  | inl e ↦ rw (e, newline-is_space c e) (λ h. refl)
  | inr e ↦ rw e (elim (Bool-cases (is_space c)) [
    | inl s ↦ rw s (λ h.
        let (rest, ended) = is_blank-after_newline text h in
        let inner : words (or_same text (after_newline text)) ≡ words text =
          words-after_newline text h in
        ap words (ap (or_same (c ∷ text)) ended) ∙ sym (ap words (ap (or_same text) ended)) ∙ inner)
    | inr s ↦ rw s (λ h. absurd (ground (arith, h)))
  ])
]

-- Taking out a blank line leaves the words.
pub words-delete_line :
    (n : ℕ) (text : Text) → is_blank_line n text ≡ true → words (delete_line n text) ≡ words text
unfolding words is_blank_line delete_line
words-delete_line zero text = words-after_newline text
words-delete_line (suc n) [] = λ h. refl
words-delete_line (suc n) (c ∷ text) = elim (Bool-cases (c == newline)) [
  | inl e ↦ rw (e, newline-is_space c e) (words-delete_line n text)
  | inr e ↦ rw e (elim (Bool-cases (is_space c)) [
    | inl s ↦ rw s (words-delete_line (suc n) text)
    | inr s ↦ rw s (λ h. ap (λ t. c ∷ t) (words-delete_line (suc n) text h))
  ])
]

-- A line further up is left as it is.
pub is_blank_line-delete_line :
    (m n : ℕ) (text : Text)
    → m < n
    → is_blank_line m text ≡ true
    → is_blank_line m (delete_line n text) ≡ true
unfolding is_blank_line is_blank delete_line
is_blank_line-delete_line m zero text less = absurd (omega (arith, less))
is_blank_line-delete_line m (suc n) [] less = λ h. h
is_blank_line-delete_line zero (suc n) (c ∷ text) less = elim (Bool-cases (c == newline)) [
  | inl e ↦ rw e (λ h. refl)
  | inr e ↦ rw e (λ h.
      let rest = is_blank_line-delete_line zero (suc n) text less (ground (arith, h)) in
      ground (arith, h, rest))
]
is_blank_line-delete_line (suc m) (suc n) (c ∷ text) less = elim (Bool-cases (c == newline)) [
  | inl e ↦ rw e (is_blank_line-delete_line m n text (omega (arith, less)))
  | inr e ↦ rw e (is_blank_line-delete_line (suc m) (suc n) text less)
]

-- It also starts where it did.
pub line_start-delete_line :
    (m n : ℕ) (text : Text) → m < n → line_start m (delete_line n text) ≡ line_start m text
unfolding line_start delete_line
line_start-delete_line m zero text less = absurd (omega (arith, less))
line_start-delete_line m (suc n) [] less = refl
line_start-delete_line zero (suc n) (c ∷ text) less = refl
line_start-delete_line (suc m) (suc n) (c ∷ text) less = elim (Bool-cases (c == newline)) [
  | inl e ↦ rw e (ap suc (line_start-delete_line m n text (omega (arith, less))))
  | inr e ↦ rw e (ap suc (line_start-delete_line (suc m) (suc n) text less))
]

-- A line that starts further up stands before.
pub line_start-less : (m n : ℕ) (text : Text) → line_start m text < line_start n text → m < n
unfolding line_start
line_start-less m zero text = λ h. absurd (omega (arith, h))
line_start-less zero (suc n) text = λ h. omega arith
line_start-less (suc m) (suc n) [] = λ h. absurd (omega (arith, h))
line_start-less (suc m) (suc n) (c ∷ text) = elim (Bool-cases (c == newline)) [
  | inl e ↦ rw e (λ h. omega (arith, line_start-less m n text (omega (arith, h))))
  | inr e ↦ rw e (λ h. line_start-less (suc m) (suc n) text (omega (arith, h)))
]

-- Behind a blank line a later one starts further down.
pub is_blank_line-line_start :
    (m n : ℕ) (text : Text)
    → m < n
    → is_blank_line m text ≡ true
    → line_start m text < line_start n text
unfolding is_blank_line is_blank line_start
is_blank_line-line_start m zero text less = absurd (omega (arith, less))
is_blank_line-line_start zero (suc n) [] less = λ h. absurd (ground (arith, h))
is_blank_line-line_start zero (suc n) (c ∷ text) less = λ h. omega arith
is_blank_line-line_start (suc m) (suc n) [] less = λ h. absurd (ground (arith, h))
is_blank_line-line_start (suc m) (suc n) (c ∷ text) less = elim (Bool-cases (c == newline)) [
  | inl e ↦ rw e (λ h. omega (arith, is_blank_line-line_start m n text (omega (arith, less)) h))
  | inr e ↦ rw e (λ h. omega (arith, is_blank_line-line_start (suc m) (suc n) text less h))
]
