-- ===== src/Report/Tree/Sort/Insertion.antt =====
-- Insertion sort keeps the promise of `slices.SortFunc`.
use Prim.Native.Nat.{Ordering}
use medik8s_system_tests.Base.{
  ◌≡◌, refl, ap, ◌∙◌, true, false, arith, if◌then◌else◌, Bool-cases, inl, inr,
}
use medik8s_system_tests.Report.Tree.{SuiteTree, Children, end, child}
use medik8s_system_tests.Report.Tree.Sort.{flip}
use medik8s_system_tests.Report.Tree.Sort.Order.{is_greater, IsOrder}
use medik8s_system_tests.Report.Tree.Sort.Sorted.{
  Rearranged, both_end, keeps, swaps, joins, Leads, SortedBy, SortsBy,
}

module _ (cmp : SuiteTree → SuiteTree → Ordering) where
  unfoldable insert_in_order : SuiteTree → Children → Children
  insert_in_order tree end = child tree end
  insert_in_order tree (child other children) =
      let later = insert_in_order tree children in
      if is_greater (cmp tree other) then child other later else child tree (child other children)

  unfoldable pub insertion_sort : Children → Children
  unfolding insert_in_order
  insertion_sort end = end
  insertion_sort (child tree children) = insert_in_order tree (insertion_sort children)

  Rearranged-same : (xs : Children) → Rearranged xs xs
  Rearranged-same end = both_end
  Rearranged-same (child tree xs) = keeps tree xs xs (Rearranged-same xs)

  insert_in_order-Rearranged :
      (tree : SuiteTree) (xs : Children) → Rearranged (child tree xs) (insert_in_order tree xs)
  unfolding insert_in_order
  insert_in_order-Rearranged tree end = Rearranged-same (child tree end)
  insert_in_order-Rearranged tree (child other xs) =
      elim (Bool-cases (is_greater (cmp tree other))) [
        | inl e ↦ rw e (
            joins (child tree (child other xs)) (child other (child tree xs))
              (child other (insert_in_order tree xs)) (swaps tree other xs)
              (keeps other (child tree xs) (insert_in_order tree xs)
                (insert_in_order-Rearranged tree xs)))
        | inr e ↦ rw e (Rearranged-same (child tree (child other xs)))
      ]

  insertion_sort-Rearranged : (xs : Children) → Rearranged xs (insertion_sort xs)
  unfolding insertion_sort
  insertion_sort-Rearranged end = both_end
  insertion_sort-Rearranged (child tree xs) =
      joins (child tree xs) (child tree (insertion_sort xs))
        (insert_in_order tree (insertion_sort xs))
        (keeps tree xs (insertion_sort xs) (insertion_sort-Rearranged xs))
        (insert_in_order-Rearranged tree (insertion_sort xs))

  module _ (order : IsOrder cmp) where
    less_back : (a b : SuiteTree) → is_greater (cmp a b) ≡ true → is_greater (cmp b a) ≡ false
    less_back a b h =
        let (back, trans) = order in ap is_greater (back a b) ∙ flip_greater (cmp a b) h
      where
        flip_greater : (o : Ordering) → is_greater o ≡ true → is_greater (flip o) ≡ false
        flip_greater Ordering.lt h = absurd (ground (arith, h))
        flip_greater Ordering.eq h = refl
        flip_greater Ordering.gt h = refl

    insert_in_order-Leads :
        (before tree : SuiteTree) (xs : Children)
        → Leads cmp before xs
        → is_greater (cmp before tree) ≡ false
        → Leads cmp before (insert_in_order tree xs)
    unfolding insert_in_order
    insert_in_order-Leads before tree end leads here = here
    insert_in_order-Leads before tree (child other xs) leads here =
        elim (Bool-cases (is_greater (cmp tree other))) [ inl e ↦ rw e leads | inr e ↦ rw e here ]

    insert_in_order-SortedBy :
        (tree : SuiteTree) (xs : Children)
        → SortedBy cmp xs
        → SortedBy cmp (insert_in_order tree xs)
    unfolding insert_in_order
    insert_in_order-SortedBy tree end sorted = (tt, tt)
    insert_in_order-SortedBy tree (child other xs) (leads, sorted) =
        elim (Bool-cases (is_greater (cmp tree other))) [
          | inl e ↦ rw e (
            insert_in_order-Leads other tree xs leads (less_back tree other e),
            insert_in_order-SortedBy tree xs sorted,
          )
          | inr e ↦ rw e (e, (leads, sorted))
        ]

    insertion_sort-SortedBy : (xs : Children) → SortedBy cmp (insertion_sort xs)
    unfolding insertion_sort
    insertion_sort-SortedBy end = tt
    insertion_sort-SortedBy (child tree xs) =
        insert_in_order-SortedBy tree (insertion_sort xs) (insertion_sort-SortedBy xs)

pub insertion_sort-SortsBy : SortsBy insertion_sort
insertion_sort-SortsBy cmp order children =
    (insertion_sort-Rearranged cmp children, insertion_sort-SortedBy cmp order children)
