-- ===== src/Report/Tree/Print.antt =====
-- `TrimRoot` and `String`.
use medik8s_system_tests.Base.{
  ℕ, zero, suc, ◌+◌, ◌≡◌, ◌≢◌, refl, [], ◌∷◌, ◌++◌, arith, ◌==◌, nat_eq, Bool-cases, inl, inr,
  if◌then◌else◌,
}
use medik8s_system_tests.Go.Strings.{Text, codes}
use medik8s_system_tests.Report.Tree.{
  SuiteTree, suite, Children, end, child, children_of, name_of, specs_of,
}
use medik8s_system_tests.Report.Tree.Sums.{Balanced}

unfoldable pub trim_root : SuiteTree → SuiteTree
trim_root (suite s end) = suite s end
trim_root (suite s (child tree end)) = trim_root tree
trim_root (suite s (child tree (child other children))) =
    suite s (child tree (child other children))

abbrev pub count : Children → ℕ
count end = 0
count (child tree children) = 1 + count children

-- In a tree where each inner node has the sum of its children's specs, `TrimRoot` returns a node that
-- has the number of specs of the whole tree and not exactly one child, and whose own subtree has such
-- sums too.
pub trim_root-Balanced :
    (tree : SuiteTree)
    → Balanced tree
    → (count (children_of (trim_root tree)) ≢ 1)
      × (specs_of (trim_root tree) ≡ specs_of tree)
      × Balanced (trim_root tree)
unfolding trim_root
trim_root-Balanced (suite s end) balanced = (λ h. absurd (omega arith), refl, balanced)
trim_root-Balanced (suite s (child tree end)) (sum, (balanced, all)) =
    let (several, e, balanced') = trim_root-Balanced tree balanced in
    (several, omega arith, balanced')
trim_root-Balanced (suite s (child tree (child other children))) balanced =
    (λ h. absurd (omega arith), refl, balanced)

unfoldable pub indent : ℕ → Text
indent zero = []
indent (suc level) = codes ".  " ++ indent level

abbrev pub newline : ℕ
newline = 10

module _ (itoa : ℕ → Text) where
  -- The line of a node.
  unfoldable pub line : ℕ → SuiteTree → Text
  unfolding indent
  line level tree =
      indent level ++ (name_of tree ++ (codes " " ++ (itoa (specs_of tree) ++ (newline ∷ []))))

  unfoldable mutual
    unfolding line

    pub string_level : SuiteTree → ℕ → Text
    string_level (suite s children) level =
        line level (suite s children) ++ string_children children (level + 1)

    pub string_children : Children → ℕ → Text
    string_children end level = []
    string_children (child tree children) level =
        string_level tree level ++ string_children children level

  unfoldable pub string : SuiteTree → Text
  unfolding string_level
  string tree = string_level tree 0

abbrev mutual
  pub size : SuiteTree → ℕ
  size (suite s children) = 1 + size_children children

  pub size_children : Children → ℕ
  size_children end = 0
  size_children (child tree children) = size tree + size_children children

-- How often a text ends a line.
unfoldable pub lines : Text → ℕ
lines [] = 0
lines (c ∷ text) = let rest = lines text in if c == newline then suc rest else rest

abbrev mutual
  -- No name in the tree holds the end of a line.
  pub Plain : SuiteTree → Type 0
  Plain (suite s children) = (lines s.name ≡ 0) × AllPlain children

  pub AllPlain : Children → Type 0
  AllPlain end = Unit
  AllPlain (child tree children) = Plain tree × AllPlain children

lines-append : (xs ys : Text) → lines (xs ++ ys) ≡ lines xs + lines ys
unfolding lines
lines-append [] ys = omega arith
lines-append (c ∷ xs) ys = elim (Bool-cases (c == newline)) [
  | inl e ↦ rw e (omega (arith, lines-append xs ys))
  | inr e ↦ rw e (lines-append xs ys)
]

lines_nil : lines [] ≡ 0
unfolding lines
lines_nil = refl

lines-indent : (level : ℕ) → lines (indent level) ≡ 0
unfolding lines indent
lines-indent zero = refl
lines-indent (suc level) = lines-indent level

module _ (itoa : ℕ → Text) (digits : (n : ℕ) → lines (itoa n) ≡ 0) where
  lines-line :
      (level : ℕ) (tree : SuiteTree) → lines (name_of tree) ≡ 0 → lines (line itoa level tree) ≡ 1
  unfolding line
  lines-line level tree plain =
      let tail = codes " " ++ (itoa (specs_of tree) ++ (newline ∷ [])) in
      let last : lines (newline ∷ []) ≡ 1 = unfold lines in refl in
      let gap : lines tail ≡ lines (itoa (specs_of tree) ++ (newline ∷ [])) =
        unfold lines in refl in
      omega (
        arith,
        lines-append (indent level) (name_of tree ++ tail),
        lines-indent level,
        lines-append (name_of tree) tail,
        plain,
        gap,
        lines-append (itoa (specs_of tree)) (newline ∷ []),
        digits (specs_of tree),
        last,
      )

  mutual
    unfolding string_level

    lines-string_level :
        (tree : SuiteTree) (level : ℕ)
        → Plain tree
        → lines (string_level itoa tree level) ≡ size tree
    lines-string_level (suite s children) level (plain, all) = omega (
      arith,
      lines-append (line itoa level (suite s children)) (string_children itoa children (level + 1)),
      lines-line level (suite s children) plain,
      lines-string_children children (level + 1) all,
    )

    lines-string_children :
        (children : Children) (level : ℕ)
        → AllPlain children
        → lines (string_children itoa children level) ≡ size_children children
    lines-string_children end level all = lines_nil
    lines-string_children (child tree children) level (plain, all) = omega (
      arith,
      lines-append (string_level itoa tree level) (string_children itoa children level),
      lines-string_level tree level plain,
      lines-string_children children level all,
    )

  -- `String` writes one line for each node of the tree, when neither a name nor a number in decimal
  -- holds the end of a line.
  pub lines-string : (tree : SuiteTree) → Plain tree → lines (string itoa tree) ≡ size tree
  unfolding string
  lines-string tree plain = lines-string_level tree 0 plain
