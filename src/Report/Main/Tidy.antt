-- ===== src/Report/Main/Tidy.antt =====
-- The trees that `getTrees` returns.
use medik8s_system_tests.Base.{◌≡◌, refl, true, [], ◌∷◌, some, arith}
use medik8s_system_tests.Go.Strings.{text_eq}
use medik8s_system_tests.Report.Tree.{SuiteTree}
use medik8s_system_tests.Report.Tree.Print.{trim_root, size}
use medik8s_system_tests.Report.Tree.Sort.{sort}
use medik8s_system_tests.Report.Tree.Sort.Sorted.{SortsBy, Ordered, Permuted, sort-Ordered}
use medik8s_system_tests.Report.Cache.{CacheKey}
use medik8s_system_tests.Report.Main.{Trees, Tool}
use medik8s_system_tests.Report.Main.Collect.{tidy_trees, tidy_tree}

module _ {W C : Type 0} (tool : Tool W C) (sorts : SortsBy tool.sort_func) where
  tidy_tree-Ordered :
      (tree : SuiteTree)
      → (sort tool.sort_func true (size (trim_root tree)) (trim_root tree)
          ≡ some (tidy_tree tool tree))
        × Ordered true (tidy_tree tool tree)
        × Permuted (trim_root tree) (tidy_tree tool tree)
  unfolding tidy_tree
  tidy_tree-Ordered tree =
      let (sorted, e, ordered, same) =
        sort-Ordered true tool.sort_func sorts (size (trim_root tree)) (trim_root tree)
          (omega arith) in
      rw e (refl, ordered, same)

  -- What `getTrees` makes of one tree by `TrimRoot` and `Sort`.
  abbrev pub IsTidied : CacheKey × SuiteTree → CacheKey × SuiteTree → Type 0
  IsTidied before after =
      (after.0 ≡ before.0)
      × (sort tool.sort_func true (size (trim_root before.1)) (trim_root before.1) ≡ some after.1)
      × Ordered true after.1
      × Permuted (trim_root before.1) after.1

  abbrev pub EachTidied : Trees → Trees → Type 0
  EachTidied [] [] = Unit
  EachTidied [] (after ∷ afters) = ⊥
  EachTidied (before ∷ befores) [] = ⊥
  EachTidied (before ∷ befores) (after ∷ afters) = IsTidied before after × EachTidied befores afters

  -- The last loop of `getTrees` keeps the keys and makes of each tree its trimmed tree with the children
  -- of every node in order; the fuel given to `Sort` is enough.
  pub tidy_trees-EachTidied : (trees : Trees) → EachTidied trees (tidy_trees tool trees)
  unfolding tidy_trees
  tidy_trees-EachTidied [] = tt
  tidy_trees-EachTidied ((key, tree) ∷ trees) = (
    let (enough, ordered, same) = tidy_tree-Ordered tree in (refl, enough, ordered, same),
    tidy_trees-EachTidied trees,
  )
