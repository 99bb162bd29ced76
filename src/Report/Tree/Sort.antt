-- ===== src/Report/Tree/Sort.antt =====
-- `Sort`. `slices.SortFunc` is a parameter: any rearrangement into the order of the comparison will do.
pub mod Order
pub mod Sorted
pub mod Sums
pub mod Insertion
mod Tests
use Prim.Native.Nat.{compare, Ordering}
use medik8s_system_tests.Base.{
  ℕ, zero, suc, ◌≡◌, Bool, true, false, List, [], ◌∷◌, Option, none, some, if◌then◌else◌,
}
use medik8s_system_tests.Go.Strings.{Text}
use medik8s_system_tests.Report.Tree.{
  SuiteTree, suite, Suite, Children, end, child, name_of, specs_of,
}

-- The sign of the result of a comparison, times -1.
abbrev pub flip : Ordering → Ordering
flip Ordering.lt = Ordering.gt
flip Ordering.eq = Ordering.eq
flip Ordering.gt = Ordering.lt

-- The first comparison, or the second where it gives 0.
abbrev pub or_else : Ordering → Ordering → Ordering
or_else Ordering.lt second = Ordering.lt
or_else Ordering.eq second = second
or_else Ordering.gt second = Ordering.gt

-- `strings.Compare`
unfoldable pub compare_text : Text → Text → Ordering
compare_text [] [] = Ordering.eq
compare_text [] (b ∷ t) = Ordering.lt
compare_text (a ∷ s) [] = Ordering.gt
compare_text (a ∷ s) (b ∷ t) = or_else (compare a b) (compare_text s t)

unfoldable pub compare_trees : (descending : Bool) → SuiteTree → SuiteTree → Ordering
unfolding compare_text
compare_trees descending tree_a tree_b =
    let n = compare (specs_of tree_a) (specs_of tree_b) in
    or_else (if descending then flip n else n) (compare_text (name_of tree_a) (name_of tree_b))

abbrev pub with_children : Suite → Option Children → Option SuiteTree
with_children s none = none
with_children s (some children) = some (suite s children)

abbrev pub with_child : Option SuiteTree → Option Children → Option Children
with_child none rest = none
with_child (some tree) none = none
with_child (some tree) (some children) = some (child tree children)

module _ (sort_func : (SuiteTree → SuiteTree → Ordering) → Children → Children)
    (descending : Bool) where
  -- The last loop of `Sort`: `sort_tree` is the call for a child.
  unfoldable pub sort_each : (sort_tree : SuiteTree → Option SuiteTree) → Children → Option Children
  sort_each sort_tree end = some end
  sort_each sort_tree (child tree children) =
      with_child (sort_tree tree) (sort_each sort_tree children)

  -- The children behind the test for none.
  unfoldable pub sort_children :
      (sort_tree : SuiteTree → Option SuiteTree) → Children → Option Children
  unfolding sort_each compare_trees
  sort_children sort_tree end = some end
  sort_children sort_tree (child tree children) =
      sort_each sort_tree (sort_func (compare_trees descending) (child tree children))

  -- `Sort`, on fuel; `none` when it runs out.
  unfoldable pub sort : ℕ → SuiteTree → Option SuiteTree
  unfolding sort_children
  sort zero tree = none
  sort (suc fuel) (suite s children) = with_children s (sort_children (sort fuel) children)
