-- ===== src/Report/Tree/Sort/Sums.antt =====
-- `Sort` and the counts of specs.
use medik8s_system_tests.Base.{ℕ, ◌+◌, ◌≡◌, refl, sym, ap, ◌∙◌, arith, Bool, ◌≤◌, some}
use medik8s_system_tests.Report.Tree.{SuiteTree, suite, Children, child, specs_of}
use medik8s_system_tests.Report.Tree.Sums.{total, Sums, Balanced, AllBalanced}
use Prim.Native.Nat.{Ordering}
use medik8s_system_tests.Report.Tree.Print.{size}
use medik8s_system_tests.Report.Tree.Sort.{sort}
use medik8s_system_tests.Report.Tree.Sort.Sorted.{
  SortsBy, sort-Ordered, Rearranged, both_end, keeps, swaps, joins, Permuted, permuted,
  EachPermuted, none_left, one_more,
}

Rearranged-total : (xs ys : Children) → Rearranged xs ys → total ys ≡ total xs
Rearranged-total _ _ both_end = refl
Rearranged-total _ _ (keeps tree xs ys r) = ap (λ n. specs_of tree + n) (Rearranged-total xs ys r)
Rearranged-total _ _ (swaps a b xs) = omega arith
Rearranged-total _ _ (joins xs ys zs r q) = Rearranged-total ys zs q ∙ Rearranged-total xs ys r

Rearranged-AllBalanced : (xs ys : Children) → Rearranged xs ys → AllBalanced xs → AllBalanced ys
Rearranged-AllBalanced _ _ both_end h = h
Rearranged-AllBalanced _ _ (keeps tree xs ys r) (here, h) = (here, Rearranged-AllBalanced xs ys r h)
Rearranged-AllBalanced _ _ (swaps a b xs) (first, (second, h)) = (second, (first, h))
Rearranged-AllBalanced _ _ (joins xs ys zs r q) h =
    Rearranged-AllBalanced ys zs q (Rearranged-AllBalanced xs ys r h)

EachPermuted-total : (xs ys : Children) → EachPermuted xs ys → total ys ≡ total xs
EachPermuted-total _ _ none_left = refl
EachPermuted-total _ _ (one_more (suite s zs) _ xs ys (permuted _ _ _ _ r q) each) =
    ap (λ n. s.specs + n) (EachPermuted-total xs ys each)

Rearranged-Sums : (n : ℕ) (xs ys : Children) → Rearranged xs ys → Sums n xs → Sums n ys
Rearranged-Sums n _ _ both_end h = h
Rearranged-Sums n _ _ (keeps tree xs ys r) h = omega (arith, h, Rearranged-total xs ys r)
Rearranged-Sums n _ _ (swaps a b xs) h = omega (arith, h)
Rearranged-Sums n _ _ (joins xs ys zs r q) h =
    Rearranged-Sums n ys zs q (Rearranged-Sums n xs ys r h)

EachPermuted-Sums : (n : ℕ) (xs ys : Children) → EachPermuted xs ys → Sums n xs → Sums n ys
EachPermuted-Sums n _ _ none_left h = h
EachPermuted-Sums n _ _ (one_more a b xs ys p each) h =
    h ∙ sym (EachPermuted-total (child a xs) (child b ys) (one_more a b xs ys p each))

mutual
  pub Permuted-Balanced : (a b : SuiteTree) → Permuted a b → Balanced a → Balanced b
  Permuted-Balanced _ _ (permuted s xs ys zs r each) (sums, all) = (
    EachPermuted-Sums s.specs ys zs each (Rearranged-Sums s.specs xs ys r sums),
    EachPermuted-AllBalanced ys zs each (Rearranged-AllBalanced xs ys r all),
  )

  EachPermuted-AllBalanced :
      (xs ys : Children) → EachPermuted xs ys → AllBalanced xs → AllBalanced ys
  EachPermuted-AllBalanced _ _ none_left h = h
  EachPermuted-AllBalanced _ _ (one_more a b xs ys p each) (here, h) =
      (Permuted-Balanced a b p here, EachPermuted-AllBalanced xs ys each h)

-- When `slices.SortFunc` keeps its promise, and the fuel is at least the number of nodes, `Sort` makes
-- of a tree in which each inner node has the sum of its children's specs another such tree, with the
-- same number of specs.
pub sort-Balanced :
    (descending : Bool) (sort_func : (SuiteTree → SuiteTree → Ordering) → Children → Children)
    → SortsBy sort_func
    → (fuel : ℕ) (tree : SuiteTree) → size tree ≤ fuel
    → Balanced tree
    → (sorted : SuiteTree) × (sort sort_func descending fuel tree ≡ some sorted)
      × Balanced sorted
      × (specs_of sorted ≡ specs_of tree)
sort-Balanced descending sort_func sorts fuel tree fits balanced =
    let (sorted, e, ordered, same) = sort-Ordered descending sort_func sorts fuel tree fits in
    (sorted, e, Permuted-Balanced tree sorted same balanced, Permuted-specs tree sorted same)
  where
    Permuted-specs : (a b : SuiteTree) → Permuted a b → specs_of b ≡ specs_of a
    Permuted-specs _ _ (permuted s xs ys zs r each) = refl
