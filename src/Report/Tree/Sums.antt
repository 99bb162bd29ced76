-- ===== src/Report/Tree/Sums.antt =====
-- The counts of specs in a tree: what an insertion does to them.
use medik8s_system_tests.Base.{
  ℕ, ◌+◌, ◌≡◌, refl, inl, inr, List, [], ◌∷◌, some, arith, Bool-cases, subst, ◌==◌,
}
use medik8s_system_tests.Go.Strings.{Text, text_eq, split}
use medik8s_system_tests.Report.Tree.{
  Suite, SuiteTree, suite, Children, end, child, specs_of, name_of, slash, find_child, update_child,
  set_leaf, add_specs, fresh_child, descend, insert,
}
use medik8s_system_tests.Report.Tree.Insert.{insert_with-some}

abbrev pub total : Children → ℕ
total end = 0
total (child tree children) = specs_of tree + total children

-- A number of specs that is the sum over the children, where there are any.
abbrev pub Sums : ℕ → Children → Type 0
Sums n end = Unit
Sums n (child tree children) = n ≡ total (child tree children)

-- Each node that has children has the sum of their specs.
abbrev mutual
  pub Balanced : SuiteTree → Type 0
  Balanced (suite s children) = Sums s.specs children × AllBalanced children

  pub AllBalanced : Children → Type 0
  AllBalanced end = Unit
  AllBalanced (child tree children) = Balanced tree × AllBalanced children

-- Nothing is counted yet at the end of the path, and no node on the way is a suite with specs of its
-- own.
abbrev pub HasRoom : List Text → SuiteTree → Type 0
HasRoom [] (suite s children) = s.specs ≡ 0
HasRoom (elem ∷ elems) (suite s children) =
    (s.specs ≡ total children)
    × ((tree : SuiteTree) → find_child elem children ≡ some tree → HasRoom elems tree)

abbrev pub Grows : (SuiteTree → SuiteTree) → ℕ → SuiteTree → Type 0
Grows change n tree = Balanced (change tree) × (specs_of (change tree) ≡ specs_of tree + n)

Sums-total : (n : ℕ) (children : Children) → n ≡ total children → Sums n children
Sums-total n end e = tt
Sums-total n (child tree children) e = e

update_child-Grows :
    (change : SuiteTree → SuiteTree) (fresh : SuiteTree) (name : Text) (n : ℕ) (children : Children)
    → specs_of fresh ≡ 0
    → Grows change n fresh
    → ((tree : SuiteTree)
        → find_child name children ≡ some tree
        → Balanced tree
        → Grows change n tree)
    → AllBalanced children
    → AllBalanced (update_child change fresh name children)
      × (total (update_child change fresh name children) ≡ total children + n)
unfolding update_child
update_child-Grows change fresh name n end empty (balanced, up) found all =
    ((balanced, tt), omega arith)
update_child-Grows change fresh name n (child tree children) empty grows found (balanced, all) =
    elim (Bool-cases (name_of tree == name)) [
      | inl e ↦
          let here : find_child name (child tree children) ≡ some tree =
            unfold find_child in rw e refl in
          let (balanced', up) = found tree here balanced in rw e ((balanced', all), omega arith)
      | inr e ↦
          let later : (t : SuiteTree)
              → find_child name children ≡ some t
              → Balanced t
              → Grows change n t =
            λ t at. found t (unfold find_child in rw e at) in
          let (all', up) = update_child-Grows change fresh name n children empty grows later all in
          rw e ((balanced, all'), omega arith)
    ]

set_leaf-Balanced :
    (description : Text) (n : ℕ) (leaf : SuiteTree)
    → Balanced (set_leaf description n leaf) × (specs_of (set_leaf description n leaf) ≡ n)
unfolding set_leaf
set_leaf-Balanced description n (suite s children) = ((tt, tt), refl)

module _ (join : Text → Text → Text) where
  HasRoom-fresh_child :
      (s : Suite) (elem : Text) (elems : List Text) → HasRoom elems (fresh_child join s elem)
  unfolding find_child
  HasRoom-fresh_child s elem [] = refl
  HasRoom-fresh_child s elem (next ∷ elems) = (refl, λ tree at. absurd (ground arith))

  descend-Grows :
      (finish : SuiteTree → SuiteTree) (n : ℕ) (elems : List Text)
      → ((tree : SuiteTree)
          → specs_of tree ≡ 0
          → Balanced (finish tree) × (specs_of (finish tree) ≡ n))
      → (tree : SuiteTree) → Balanced tree
      → HasRoom elems tree
      → Grows (descend join finish n elems) n tree
  unfolding descend
  descend-Grows finish n [] ends (suite s children) balanced empty =
      let (balanced', e) = ends (suite s children) empty in (balanced', omega arith)
  descend-Grows finish n (elem ∷ elems) ends (suite s children) (sums, all) (level, room) =
      let later = descend-Grows finish n elems ends in
      let fresh = fresh_child join s elem in
      let (all', up) =
        update_child-Grows (descend join finish n elems) fresh elem n children refl
          (later fresh (tt, tt) (HasRoom-fresh_child s elem elems))
          (λ tree at balanced. later tree balanced (room tree at)) all in
      unfold add_specs in
      (
        (
          Sums-total (s.specs + n) (update_child (descend join finish n elems) fresh elem children)
              (omega arith),
          all',
        ),
        refl,
      )

  -- When an insertion succeeds on a tree in which each inner node's number of specs is the sum of its
  -- children's, the result is such a tree and its root counts the specs of the new suite in addition,
  -- provided that the path ends at a node that counts none yet and passes no suite that has specs of
  -- its own.
  pub insert-Balanced :
      (suite_path description : Text) (n : ℕ) (tree grown : SuiteTree)
      → insert join suite_path description n tree ≡ some grown
      → Balanced tree
      → HasRoom (split slash suite_path) tree
      → Balanced grown × (specs_of grown ≡ specs_of tree + n)
  unfolding insert
  insert-Balanced suite_path description n tree grown h balanced room =
      let (rooted, e) =
        insert_with-some join (λ leaf. leaf) suite_path description n tree grown h in
      subst (λ (t : SuiteTree). Balanced t × (specs_of t ≡ specs_of tree + n)) e
        (descend-Grows (set_leaf description n) n (split slash suite_path)
          (λ leaf empty. set_leaf-Balanced description n leaf) tree balanced room)
