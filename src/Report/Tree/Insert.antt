-- ===== src/Report/Tree/Insert.antt =====
-- When `Insert` returns a leaf, and the tree that it then leaves.
use medik8s_system_tests.Base.{
  ℕ, ◌≡◌, refl, inl, inr, true, List, [], ◌∷◌, some, arith, Bool-cases, ◌==◌, nat_eq,
}
use medik8s_system_tests.Go.Strings.{Text, has_prefix, split}
use medik8s_system_tests.Report.Tree.{SuiteTree, fields, slash, set_leaf, descend, insert_with}

module _ (join : Text → Text → Text) (after : SuiteTree → SuiteTree) where
  pub insert_with-some :
      (suite_path description : Text) (n : ℕ) (tree grown : SuiteTree)
      → insert_with join after suite_path description n tree ≡ some grown
      → (has_prefix suite_path (fields tree).path ≡ true)
        × (descend join
              (λ leaf. after (set_leaf description n leaf))
              n
              (split slash suite_path)
              tree
            ≡ grown)
  unfolding insert_with
  insert_with-some suite_path description n tree grown =
      elim (Bool-cases (has_prefix suite_path (fields tree).path)) [
        | inl e ↦ rw e (λ h. (refl, cc))
        | inr e ↦ rw e (λ h. absurd (ground arith))
      ]

  pub insert_with-rooted :
      (suite_path description : Text) (n : ℕ) (tree : SuiteTree)
      → has_prefix suite_path (fields tree).path ≡ true
      → insert_with join after suite_path description n tree
        ≡ some (
            descend join
              (λ leaf. after (set_leaf description n leaf))
              n
              (split slash suite_path)
              tree)
  unfolding insert_with
  insert_with-rooted suite_path description n tree e = rw e refl

-- A path has an element, if only an empty one.
pub split-cons :
    (separator : ℕ) (text : Text)
    → (part : Text) × (parts : List Text) × (split separator text ≡ part ∷ parts)
unfolding split
split-cons separator [] = ([], [], refl)
split-cons separator (c ∷ text) =
    let (part, parts, later) = split-cons separator text in
    elim (Bool-cases (c == separator)) [
      | inl e ↦ ([], split separator text, rw e refl)
      | inr e ↦ (c ∷ part, parts, rw (e, later) refl)
    ]
