-- ===== src/Go/Split.antt =====
-- What `strings.Split` gives.
use medik8s_system_tests.Base.{ℕ, ◌≡◌, refl, List, [], ◌∷◌, Bool-cases, inl, inr, ◌==◌, nat_eq}
use medik8s_system_tests.Go.Strings.{Text, split}

pub split_cons :
    (separator : ℕ) (text : Text)
    → (part : Text) × (parts : List Text) × (split separator text ≡ part ∷ parts)
unfolding split
split_cons separator [] = ([], [], refl)
split_cons separator (c ∷ text) =
    let (part, parts, e) = split_cons separator text in
    elim (Bool-cases (c == separator)) [
      | inl t ↦ ([], split separator text, rw t refl)
      | inr t ↦ (c ∷ part, parts, rw (t, e) refl)
    ]
