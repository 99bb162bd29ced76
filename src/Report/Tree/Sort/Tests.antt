-- ===== src/Report/Tree/Sort/Tests.antt =====
-- Runs of `Sort` with insertion sort.
use medik8s_system_tests.Base.{ℕ, ◌≡◌, refl, true, none, some, [], arith}
use medik8s_system_tests.Go.Strings.{codes, Text}
use medik8s_system_tests.Report.Tree.{SuiteTree, suite, Children, end, child}
use medik8s_system_tests.Report.Tree.Sort.{sort, compare_trees}
use medik8s_system_tests.Report.Tree.Sort.Sorted.{Ordered, Permuted, sort-Ordered}
use medik8s_system_tests.Report.Tree.Sort.Insertion.{insertion_sort, insertion_sort-SortsBy}

abbrev suite_of : Text → ℕ → Children → SuiteTree
suite_of name specs children =
    suite (record { path = name; name = name; description = []; specs = specs; spec_report = none })
      children

abbrev few_first : SuiteTree
few_first =
    suite_of (codes "r") 3
      (child (suite_of (codes "a") 1 end) (child (suite_of (codes "b") 2 end) end))

sort-Ordered_example :
    (sorted : SuiteTree) × (sort insertion_sort true 3 few_first ≡ some sorted)
    × Ordered true sorted
    × Permuted few_first sorted
sort-Ordered_example =
    sort-Ordered true insertion_sort insertion_sort-SortsBy 3 few_first (omega arith)

many_first :
    sort insertion_sort true 3 few_first
    ≡ some (
        suite_of
          (codes "r")
          3
          (child (suite_of (codes "b") 2 end) (child (suite_of (codes "a") 1 end) end)))
unfolding sort compare_trees insertion_sort
many_first = refl
