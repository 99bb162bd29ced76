-- ===== src/Report/Tree/Lookup.antt =====
-- What an insertion leaves at the end of its path.
use medik8s_system_tests.Base.{
  ℕ, ◌≡◌, refl, ◌∙◌, inl, inr, true, List, [], ◌∷◌, Option, none, some, subst, Bool-cases, ◌==◌,
}
use medik8s_system_tests.Go.Strings.{Text, text_eq, text_beq_iff, split}
use medik8s_system_tests.Report.Tree.{
  SuiteTree, suite, Children, end, child, fields, children_of, name_of, slash, find_child,
  update_child, set_leaf, fresh_child, descend, insert, add_specs,
}
use medik8s_system_tests.Report.Tree.Insert.{insert_with-some}

-- The node at the end of a path, by the source's `findChild`.
unfoldable pub lookup : List Text → SuiteTree → Option SuiteTree
lookup [] tree = some tree
lookup (elem ∷ elems) (suite s children) = elim (find_child elem children) [
  | none ↦ none
  | some tree ↦ lookup elems tree
]

-- The child with the name is the changed one, old or fresh.
find_child-update_child :
    (change : SuiteTree → SuiteTree) (fresh : SuiteTree) (name : Text) (children : Children)
    → ((tree : SuiteTree) → name_of (change tree) ≡ name_of tree)
    → name_of fresh ≡ name
    → (tree : SuiteTree) × (find_child name (update_child change fresh name children)
        ≡ some (change tree))
unfolding update_child find_child
find_child-update_child change fresh name end keeps e =
    let same : (name_of (change fresh) == name) ≡ true =
      (text_beq_iff (name_of (change fresh)) name).1 (keeps fresh ∙ e) in
    (fresh, rw same refl)
find_child-update_child change fresh name (child tree children) keeps e =
    elim (Bool-cases (name_of tree == name)) [
      | inl t ↦
          let same : (name_of (change tree) == name) ≡ true =
            (text_beq_iff (name_of (change tree)) name).1
              (keeps tree ∙ (text_beq_iff (name_of tree) name).0 t) in
          (tree, rw t (rw same refl))
      | inr t ↦
          let (found, later) = find_child-update_child change fresh name children keeps e in
          (found, rw t (rw t later))
    ]

set_leaf-name_of :
    (description : Text) (n : ℕ) (leaf : SuiteTree)
    → name_of (set_leaf description n leaf) ≡ name_of leaf
unfolding set_leaf
set_leaf-name_of description n (suite s children) = refl

set_leaf-leaf :
    (description : Text) (n : ℕ) (leaf : SuiteTree)
    → ((fields (set_leaf description n leaf)).description ≡ description)
      × ((fields (set_leaf description n leaf)).specs ≡ n)
      × (children_of (set_leaf description n leaf) ≡ end)
unfolding set_leaf
set_leaf-leaf description n (suite s children) = (refl, refl, refl)

module _ (join : Text → Text → Text) where
  module _ (finish : SuiteTree → SuiteTree)
      (keeps : (tree : SuiteTree) → name_of (finish tree) ≡ name_of tree) where
    descend-name_of :
        (n : ℕ) (elems : List Text) (tree : SuiteTree)
        → name_of (descend join finish n elems tree) ≡ name_of tree
    unfolding descend add_specs
    descend-name_of n [] tree = keeps tree
    descend-name_of n (elem ∷ elems) (suite s children) = refl

    lookup-descend :
        (n : ℕ) (elems : List Text) (tree : SuiteTree)
        → (old : SuiteTree) × (lookup elems (descend join finish n elems tree) ≡ some (finish old))
    unfolding lookup descend
    lookup-descend n [] tree = (tree, refl)
    lookup-descend n (elem ∷ elems) (suite s children) =
        let change = descend join finish n elems in
        let (below, found) =
          find_child-update_child change (fresh_child join s elem) elem children
            (descend-name_of n elems) refl in
        let (old, later) = lookup-descend n elems below in (old, rw (found, lookup) later)

  -- After a successful insertion the node at the end of the path is a leaf with the description and
  -- the number of specs of the suite, whatever the tree held before.
  pub lookup-insert :
      (suite_path description : Text) (n : ℕ) (tree grown : SuiteTree)
      → insert join suite_path description n tree ≡ some grown
      → (leaf : SuiteTree) × (lookup (split slash suite_path) grown ≡ some leaf)
        × ((fields leaf).description ≡ description)
        × ((fields leaf).specs ≡ n)
        × (children_of leaf ≡ end)
  unfolding insert
  lookup-insert suite_path description n tree grown h =
      let (rooted, e) =
        insert_with-some join (λ leaf. leaf) suite_path description n tree grown h in
      let (old, found) =
        lookup-descend (set_leaf description n) (λ leaf. set_leaf-name_of description n leaf) n
          (split slash suite_path) tree in
      let leafy = set_leaf-leaf description n old in
      (
        set_leaf description n old,
        subst (λ t. lookup (split slash suite_path) t ≡ some (set_leaf description n old)) e found,
        leafy.0,
        leafy.1,
        leafy.2,
      )
