-- ===== src/Go/Trim.antt =====
-- What `strings.TrimFunc` takes away.
use medik8s_system_tests.Base.{
  ℕ, ◌≡◌, refl, sym, ap, ◌∙◌, subst, Bool, true, [], ◌∷◌, All, All-reverse, reverse,
  reverse-reverse, Bool-cases, inl, inr, arith,
}
use medik8s_system_tests.Go.Strings.{Text, drop_while, trim_by}

drop_while-nil :
    (test : ℕ → Bool) (text : Text) → drop_while test text ≡ [] → All (λ c. test c ≡ true) text
unfolding drop_while
drop_while-nil test [] = λ h. tt
drop_while-nil test (c ∷ text) = elim (Bool-cases (test c)) [
  | inl e ↦ rw e (λ h. (refl, drop_while-nil test text h))
  | inr e ↦ rw e (λ h. absurd (ground arith))
]

drop_while-All :
    (test : ℕ → Bool) (text : Text)
    → All (λ c. test c ≡ true) (drop_while test text)
    → All (λ c. test c ≡ true) text
unfolding drop_while
drop_while-All test [] = λ h. tt
drop_while-All test (c ∷ text) = elim (Bool-cases (test c)) [
  | inl e ↦ rw e (λ h. (refl, drop_while-All test text h))
  | inr e ↦ rw e (λ h. absurd (ground (arith, e)))
]

-- What is trimmed away holds nothing else.
pub trim_by-nil :
    (test : ℕ → Bool) (text : Text) → trim_by test text ≡ [] → All (λ c. test c ≡ true) text
unfolding trim_by
trim_by-nil test text h =
    let left = drop_while test text in
    let right = drop_while test (reverse left) in
    let none_left : right ≡ [] = sym (reverse-reverse right) ∙ ap reverse h in
    let back : All (λ c. test c ≡ true) (reverse (reverse left)) =
      All-reverse (λ c. test c ≡ true) (reverse left)
        (drop_while-nil test (reverse left) none_left) in
    drop_while-All test text (subst (λ t. All (λ c. test c ≡ true) t) (reverse-reverse left) back)
