-- ===== src/Report/Tree/Reports.antt =====
-- The tree that `NewFromReports` builds: its count of specs, and when it is built at all.
use medik8s_system_tests.Base.{
  ℕ, ◌+◌, ◌≡◌, refl, sym, ◌⊎◌, inl, inr, true, false, List, [], ◌∷◌, none, some, arith, All, Any,
  Bool-cases, subst, ◌↔◌,
}
use medik8s_system_tests.Go.Strings.{Text, codes, has_prefix, split}
use medik8s_system_tests.Report.Tree.{
  SpecReport, SuiteTree, suite, fields, specs_of, slash, set_leaf, add_specs, descend, insert_with,
  insert_specs, Report, root, add_report, add_reports, new_from_reports,
}
use medik8s_system_tests.Report.Tree.Insert.{insert_with-rooted, split-cons}

module _ (join : Text → Text → Text) (its : List SpecReport → List SpecReport) where
  -- The sum of `PreRunStats.TotalSpecs`.
  abbrev pub total_specs : List (Report join its) → ℕ
  total_specs [] = 0
  total_specs (report ∷ reports) = report.total_specs + total_specs reports

  -- The suite lies below the root of the tree.
  abbrev pub IsRooted : Text → Report join its → Type 0
  IsRooted path report = has_prefix report.suite_path path ≡ true

  descend-root :
      (finish : SuiteTree → SuiteTree) (n : ℕ) (elems : List Text) (part : Text) (parts : List Text)
      (tree : SuiteTree)
      → elems ≡ part ∷ parts
      → (specs_of (descend join finish n elems tree) ≡ specs_of tree + n)
        × ((fields (descend join finish n elems tree)).path ≡ (fields tree).path)
  unfolding descend add_specs
  descend-root finish n elems part parts (suite s children) e = rw e (refl, refl)

  add_report-specs :
      (report : Report join its) (tree : SuiteTree)
      → IsRooted (fields tree).path report
      → (grown : SuiteTree) × (add_report join its report tree ≡ some grown)
        × (specs_of grown ≡ specs_of tree + report.total_specs)
        × ((fields grown).path ≡ (fields tree).path)
  unfolding add_report
  add_report-specs report tree rooted =
      let (part, parts, e) = split-cons slash report.suite_path in
      let finish : SuiteTree → SuiteTree = λ leaf.
        insert_specs join its report.spec_reports
          (set_leaf report.suite_description report.total_specs leaf) in
      let grown = descend join finish report.total_specs (split slash report.suite_path) tree in
      let (up, kept) =
        descend-root finish report.total_specs (split slash report.suite_path) part parts tree e in
      (
        grown,
        insert_with-rooted join (insert_specs join its report.spec_reports) report.suite_path
            report.suite_description report.total_specs tree rooted,
        up,
        kept,
      )

  add_reports-specs :
      (reports : List (Report join its)) (tree : SuiteTree)
      → All (IsRooted (fields tree).path) reports
      → (grown : SuiteTree) × (add_reports join its reports tree ≡ some grown)
        × (specs_of grown ≡ specs_of tree + total_specs reports)
  unfolding add_reports
  add_reports-specs [] tree rooted = (tree, refl, omega arith)
  add_reports-specs (report ∷ reports) tree (here, rooted) =
      let (grown, e, up, kept) = add_report-specs report tree here in
      let (whole, e', up') =
        add_reports-specs reports grown
          (subst (λ path. All (IsRooted path) reports) (sym kept) rooted) in
      (whole, rw (e, add_reports) e', omega arith)

  -- `NewFromReports` returns a tree when the path of each report's suite starts with a slash, and the
  -- count at its root is then the sum of the reports' total numbers of specs.
  pub new_from_reports-total_specs :
      (reports : List (Report join its))
      → All (IsRooted (codes "/")) reports
      → (tree : SuiteTree) × (new_from_reports join its reports ≡ some tree)
        × (specs_of tree ≡ total_specs reports)
  unfolding new_from_reports
  new_from_reports-total_specs reports rooted =
      let (tree, e, up) = add_reports-specs reports (root join its) rooted in (tree, e, omega arith)

  add_report-unrooted :
      (report : Report join its) (tree : SuiteTree)
      → has_prefix report.suite_path (fields tree).path ≡ false
      → add_report join its report tree ≡ none
  unfolding add_report insert_with
  add_report-unrooted report tree stray = rw stray refl

  add_reports-unrooted :
      (reports : List (Report join its)) (tree : SuiteTree)
      → Any (λ report. has_prefix report.suite_path (fields tree).path ≡ false) reports
      → add_reports join its reports tree ≡ none
  unfolding add_reports
  add_reports-unrooted [] tree stray = elim stray [ ]
  add_reports-unrooted (report ∷ reports) tree (inl here) =
      rw (add_report-unrooted report tree here, add_reports) refl
  add_reports-unrooted (report ∷ reports) tree (inr later) =
      elim (Bool-cases (has_prefix report.suite_path (fields tree).path)) [
        | inl rooted ↦
            let (grown, e, up, kept) = add_report-specs report tree rooted in
            rw (e, add_reports)
              (add_reports-unrooted reports grown (
                subst
                  (λ path.
                    Any (λ (r : Report join its). has_prefix r.suite_path path ≡ false) reports)
                  (sym kept) later))
        | inr stray ↦ rw (add_report-unrooted report tree stray, add_reports) refl
      ]

  -- `NewFromReports` dereferences nil exactly when the path of some report's suite does not start with
  -- a slash.
  pub new_from_reports-none :
      (reports : List (Report join its))
      → (new_from_reports join its reports ≡ none)
        ↔ Any (λ report. has_prefix report.suite_path (codes "/") ≡ false) reports
  unfolding new_from_reports
  new_from_reports-none reports = (
    λ h. elim (all_or_any reports) [
      | inl rooted ↦
          let (tree, e, up) = add_reports-specs reports (root join its) rooted in
          absurd (ground (arith, e, h))
      | inr stray ↦ stray
    ],
    λ stray. add_reports-unrooted reports (root join its) stray,
  )
    where
      all_or_any :
          (reports : List (Report join its))
          → All (IsRooted (codes "/")) reports
            ⊎ Any (λ report. has_prefix report.suite_path (codes "/") ≡ false) reports
      all_or_any [] = inl tt
      all_or_any (report ∷ reports) = elim (Bool-cases (has_prefix report.suite_path (codes "/"))) [
        | inl here ↦ elim (all_or_any reports) [
          | inl rooted ↦ inl (here, rooted)
          | inr stray ↦ inr (inr stray)
        ]
        | inr stray ↦ inr (inl stray)
      ]
