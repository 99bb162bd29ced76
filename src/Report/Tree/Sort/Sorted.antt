-- ===== src/Report/Tree/Sort/Sorted.antt =====
-- What the sorted tree is.
use Prim.Native.Nat.{Ordering}
use medik8s_system_tests.Base.{ℕ, zero, suc, ◌≤◌, ◌≡◌, refl, sym, ap, ◌∙◌, Bool, false, some, arith}
use medik8s_system_tests.Report.Tree.{Suite, SuiteTree, suite, Children, end, child, fields}
use medik8s_system_tests.Report.Tree.Print.{size, size_children}
use medik8s_system_tests.Report.Tree.Sort.{
  sort, sort_children, sort_each, compare_trees, with_children,
}
use medik8s_system_tests.Report.Tree.Sort.Order.{is_greater, IsOrder, compare_trees-IsOrder}

-- The same trees in another order.
pub data Rearranged : Children → Children → Type 0 where
  both_end : Rearranged end end
  keeps :
      (tree : SuiteTree) (xs ys : Children)
      → Rearranged xs ys
      → Rearranged (child tree xs) (child tree ys)
  swaps :
      (a b : SuiteTree) (xs : Children) → Rearranged (child a (child b xs)) (child b (child a xs))
  joins : (xs ys zs : Children) → Rearranged xs ys → Rearranged ys zs → Rearranged xs zs

-- Each tree stands in order with the next.
abbrev pub Leads : (SuiteTree → SuiteTree → Ordering) → SuiteTree → Children → Type 0
Leads cmp tree end = Unit
Leads cmp tree (child next children) = is_greater (cmp tree next) ≡ false

abbrev pub SortedBy : (SuiteTree → SuiteTree → Ordering) → Children → Type 0
SortedBy cmp end = Unit
SortedBy cmp (child tree children) = Leads cmp tree children × SortedBy cmp children

-- What the documentation of `slices.SortFunc` promises.
abbrev pub SortsBy : ((SuiteTree → SuiteTree → Ordering) → Children → Children) → Type 0
SortsBy sort_func =
    (cmp : SuiteTree → SuiteTree → Ordering)
    → IsOrder cmp
    → (children : Children)
    → Rearranged children (sort_func cmp children) × SortedBy cmp (sort_func cmp children)

-- The children of every node are in the order of `Sort`.
abbrev mutual
  pub Ordered : Bool → SuiteTree → Type 0
  Ordered descending (suite s children) =
      SortedBy (compare_trees descending) children × AllOrdered descending children

  pub AllOrdered : Bool → Children → Type 0
  AllOrdered descending end = Unit
  AllOrdered descending (child tree children) =
      Ordered descending tree × AllOrdered descending children

-- The same nodes, with the children of each in another order.
mutual
  pub data Permuted : SuiteTree → SuiteTree → Type 0 where
    permuted :
        (s : Suite) (xs ys zs : Children)
        → Rearranged xs ys
        → EachPermuted ys zs
        → Permuted (suite s xs) (suite s zs)

  pub data EachPermuted : Children → Children → Type 0 where
    none_left : EachPermuted end end
    one_more :
        (a b : SuiteTree) (xs ys : Children)
        → Permuted a b
        → EachPermuted xs ys
        → EachPermuted (child a xs) (child b ys)

abbrev AllSized : ℕ → Children → Type 0
AllSized fuel end = Unit
AllSized fuel (child tree children) = (size tree ≤ fuel) × AllSized fuel children

size_children-AllSized :
    (fuel : ℕ) (children : Children) → size_children children ≤ fuel → AllSized fuel children
size_children-AllSized fuel end h = tt
size_children-AllSized fuel (child tree children) h =
    (omega (arith, h), size_children-AllSized fuel children (omega (arith, h)))

Rearranged-AllSized :
    (fuel : ℕ) (xs ys : Children) → Rearranged xs ys → AllSized fuel xs → AllSized fuel ys
Rearranged-AllSized fuel _ _ both_end h = h
Rearranged-AllSized fuel _ _ (keeps tree xs ys r) (here, h) =
    (here, Rearranged-AllSized fuel xs ys r h)
Rearranged-AllSized fuel _ _ (swaps a b xs) (first, (second, h)) = (second, (first, h))
Rearranged-AllSized fuel _ _ (joins xs ys zs r q) h =
    Rearranged-AllSized fuel ys zs q (Rearranged-AllSized fuel xs ys r h)

Permuted-fields : (a b : SuiteTree) → Permuted a b → fields a ≡ fields b
Permuted-fields _ _ (permuted s xs ys zs r each) = refl

module _ (descending : Bool) where
  -- The comparison reads the fields of a node only.
  compare_trees-fields :
      (a a' b b' : SuiteTree)
      → fields a ≡ fields a'
      → fields b ≡ fields b'
      → compare_trees descending a b ≡ compare_trees descending a' b'
  unfolding compare_trees
  compare_trees-fields (suite s xs) (suite s' xs') (suite t ys) (suite t' ys') e f =
      ap (λ k. compare_trees descending (suite k xs) (suite t ys)) e
      ∙ ap (λ k. compare_trees descending (suite s' xs') (suite k ys)) f

  EachPermuted-Leads :
      (a a' : SuiteTree) (xs ys : Children)
      → Permuted a a'
      → EachPermuted xs ys
      → Leads (compare_trees descending) a xs
      → Leads (compare_trees descending) a' ys
  EachPermuted-Leads a a' _ _ p none_left h = tt
  EachPermuted-Leads a a' _ _ p (one_more b b' xs ys q each) h =
      ap is_greater
        (sym (compare_trees-fields a a' b b' (Permuted-fields a a' p) (Permuted-fields b b' q)))
      ∙ h

  EachPermuted-SortedBy :
      (xs ys : Children)
      → EachPermuted xs ys
      → SortedBy (compare_trees descending) xs
      → SortedBy (compare_trees descending) ys
  EachPermuted-SortedBy _ _ none_left h = tt
  EachPermuted-SortedBy _ _ (one_more a b xs ys p each) (leads, h) =
      (EachPermuted-Leads a b xs ys p each leads, EachPermuted-SortedBy xs ys each h)

  module _ (sort_func : (SuiteTree → SuiteTree → Ordering) → Children → Children)
      (sorts : SortsBy sort_func) where
    abbrev Sorts : ℕ → Type 0
    Sorts fuel =
        (tree : SuiteTree)
        → size tree ≤ fuel
        → (sorted : SuiteTree) × (sort sort_func descending fuel tree ≡ some sorted)
          × Ordered descending sorted
          × Permuted tree sorted

    sort_each-Ordered :
        (fuel : ℕ) (children : Children)
        → Sorts fuel
        → AllSized fuel children
        → (sorted : Children) × (sort_each sort_func descending
              (sort sort_func descending fuel)
              children
            ≡ some sorted)
          × AllOrdered descending sorted
          × EachPermuted children sorted
    unfolding sort_each
    sort_each-Ordered fuel end goes sized = (end, refl, tt, none_left)
    sort_each-Ordered fuel (child tree children) goes (fits, sized) =
        let (first, e, ordered, p) = goes tree fits in
        let (rest, f, all, each) = sort_each-Ordered fuel children goes sized in
        (child first rest, rw (e, f) refl, (ordered, all), one_more tree first children rest p each)

    sort_children-Ordered :
        (fuel : ℕ) (s : Suite) (children : Children)
        → Sorts fuel
        → size_children children ≤ fuel
        → (sorted : SuiteTree) × (with_children s
              (sort_children sort_func descending (sort sort_func descending fuel) children)
            ≡ some sorted)
          × Ordered descending sorted
          × Permuted (suite s children) sorted
    unfolding sort_children
    sort_children-Ordered fuel s end goes fits =
        (suite s end, refl, (tt, tt), permuted s end end end both_end none_left)
    sort_children-Ordered fuel s (child tree children) goes fits =
        let before = child tree children in
        let cmp = compare_trees descending in
        let arranged = sort_func cmp before in
        let (r, in_order) = sorts cmp (compare_trees-IsOrder descending) before in
        let sized =
          Rearranged-AllSized fuel before arranged r (size_children-AllSized fuel before fits) in
        let (sorted, e, all, each) = sort_each-Ordered fuel arranged goes sized in
        (
          suite s sorted,
          rw e refl,
          (EachPermuted-SortedBy arranged sorted each in_order, all),
          permuted s before arranged sorted r each,
        )

    -- When `slices.SortFunc` keeps its promise, and the fuel is at least the number of nodes, `Sort`
    -- returns the nodes of the tree with the children of every node in order.
    pub sort-Ordered :
        (fuel : ℕ) (tree : SuiteTree)
        → size tree ≤ fuel
        → (sorted : SuiteTree) × (sort sort_func descending fuel tree ≡ some sorted)
          × Ordered descending sorted
          × Permuted tree sorted
    unfolding sort
    sort-Ordered zero (suite s children) fits = absurd (omega (arith, fits))
    sort-Ordered (suc fuel) (suite s children) fits =
        sort_children-Ordered fuel s children (sort-Ordered fuel) (omega (arith, fits))
