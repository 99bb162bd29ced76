-- ===== src/Report/Main/Written.antt =====
-- The reports that `templateTreeMap` writes.
use mathlib.Core.List.{append_cancel_left, append_cancel_right}
use medik8s_system_tests.Base.{
  ℕ, drop, ◌≡◌, ◌≢◌, refl, sym, ap, ◌∙◌, subst, true, false, List, [], ◌∷◌, ◌++◌, All, All-map,
  arith, Bool, Bool-cases, Option-cases, inl, inr,
}
use medik8s_system_tests.Go.Strings.{Text, codes}
use medik8s_system_tests.Report.Tree.{SuiteTree}
use medik8s_system_tests.Report.Cache.{CacheKey}
use medik8s_system_tests.Report.Cache.Disk.{File, write_file}
use medik8s_system_tests.Report.Cache.Disk.Laws.{Holds, write_file-Holds, write_file-other}
use medik8s_system_tests.Report.Template.{
  compare_reports, BranchReport, execute_template_and_save, template_tree, template_report,
}
use medik8s_system_tests.Report.Main.{Outcome, returns, fails, panics, Trees, Tool}
use medik8s_system_tests.Report.Main.Output.{
  cut_revision, report_name, add_branch_report, then_report, tree_config, template_each,
  report_config, done_or_fail, template_reports, template_tree_map,
}

-- The branches of the trees are different.
abbrev pub Unlike : Text → Trees → Type 0
Unlike branch trees = All (λ e. branch ≢ e.0.branch) trees

abbrev pub HasBranches : Trees → Type 0
HasBranches [] = Unit
HasBranches ((key, tree) ∷ trees) = Unlike key.branch trees × HasBranches trees

abbrev first_or_0 : Text → ℕ
first_or_0 [] = 0
first_or_0 (c ∷ text) = c

module _ {W C : Type 0} (tool : Tool W C) where
  report_name-apart : (a b : Text) → a ≢ b → report_name tool a ≢ report_name tool b
  report_name-apart a b apart same = apart (
      append_cancel_right a b (codes ".html")
        (append_cancel_left (codes "report_") (a ++ codes ".html") (b ++ codes ".html") same))

  report_name-report : (a : Text) → report_name tool a ≢ codes "report.html"
  unfolding drop
  report_name-report a same =
      let differ : 95 ≡ 46 = ap (λ t. first_or_0 (drop 6 t)) same in absurd (omega (arith, differ))

  -- What is saved when a template succeeds.
  execute_template_and_save-saved :
      (output name : Text) (executed : C × Bool) (files : List (File C))
      → (execute_template_and_save tool.creates output name executed files).1 ≡ true
      → ((execute_template_and_save tool.creates output name executed files).0
          ≡ write_file output name executed.0 files)
        × (executed.1 ≡ true)
  unfolding execute_template_and_save
  execute_template_and_save-saved output name (content, done) files =
      elim (Bool-cases (tool.creates name)) [
        | inl e ↦ simp e (λ h. (refl, h))
        | inr e ↦ simp e (λ h. absurd (ground (arith, h)))
      ]

  -- What goes on behind a tree that is written.
  then_report-returns :
      (key : CacheKey) (next : List (File C) → List (File C) × Outcome (List BranchReport))
      (saved : List (File C) × Bool) (reports : List BranchReport)
      → (then_report tool key next saved).1 ≡ returns reports
      → (rest : List BranchReport) × (saved.1 ≡ true)
        × ((next saved.0).1 ≡ returns rest)
        × ((then_report tool key next saved).0 ≡ (next saved.0).0)
  then_report-returns key next (files, false) reports = λ h. absurd (cc)
  then_report-returns key next (files, true) reports = elim (Option-cases (cut_revision tool key)) [
    | inl e ↦ rw e (λ h. absurd (cc))
    | inr (short, e) ↦ rw e (added short (next files))
  ]
    where
      added :
          (short : Text) (r : List (File C) × Outcome (List BranchReport))
          → (add_branch_report tool key short r).1 ≡ returns reports
          → (rest : List BranchReport) × (true ≡ true)
            × (r.1 ≡ returns rest)
            × ((add_branch_report tool key short r).0 ≡ r.0)
      added short (after, fails) h = absurd (cc)
      added short (after, panics) h = absurd (cc)
      added short (after, returns rest) h = (rest, refl, refl, refl)

  module _ (action_url output : Text) where
    -- What a tree's report holds.
    abbrev pub Reported : List (File C) → CacheKey × SuiteTree → Type 0
    Reported files (key, tree) =
        Holds output (report_name tool key.branch)
          (tool.execute_tree (tree_config tool action_url key tree)).0 files
        × ((tool.execute_tree (tree_config tool action_url key tree)).1 ≡ true)

    template_each-others :
        (trees : Trees) (files : List (File C)) (reports : List BranchReport) (sought : Text)
        (content : C)
        → (template_each tool action_url output trees files).1 ≡ returns reports
        → All (λ e. report_name tool e.0.branch ≢ sought) trees
        → Holds output sought content files
        → Holds output sought content (template_each tool action_url output trees files).0
    unfolding template_each template_tree
    template_each-others [] files reports sought content h apart holds = holds
    template_each-others ((key, tree) ∷ trees) files reports sought content h (here, apart) holds =
        let executed = tool.execute_tree (tree_config tool action_url key tree) in
        let saved =
          execute_template_and_save tool.creates output (report_name tool key.branch) executed
            files in
        let (rest, done, later, after) =
          then_report-returns key (template_each tool action_url output trees) saved reports h in
        let (wrote, full) =
          execute_template_and_save-saved output (report_name tool key.branch) executed files
            done in
        let first : Holds output sought content saved.0 =
          subst (Holds output sought content) (sym wrote) (
            write_file-other output (report_name tool key.branch) sought here content executed.0
              files holds) in
        subst (Holds output sought content) (sym after)
          (template_each-others trees saved.0 rest sought content later apart first)

    template_each-Reported :
        (trees : Trees) (files : List (File C)) (reports : List BranchReport)
        → HasBranches trees
        → (template_each tool action_url output trees files).1 ≡ returns reports
        → All (Reported (template_each tool action_url output trees files).0) trees
    unfolding template_each template_tree
    template_each-Reported [] files reports unique h = tt
    template_each-Reported ((key, tree) ∷ trees) files reports (alone, unique) h =
        let name = report_name tool key.branch in
        let executed = tool.execute_tree (tree_config tool action_url key tree) in
        let saved = execute_template_and_save tool.creates output name executed files in
        let (rest, done, later, after) =
          then_report-returns key (template_each tool action_url output trees) saved reports h in
        let (wrote, full) = execute_template_and_save-saved output name executed files done in
        let first : Holds output name executed.0 saved.0 =
          subst (Holds output name executed.0) (sym wrote)
            (write_file-Holds output name executed.0 files) in
        let apart : All (λ e. report_name tool e.0.branch ≢ name) trees =
          All-map trees
            (λ e other. report_name-apart e.0.branch key.branch (λ same. other (sym same))) alone in
        subst (λ fs. All (Reported fs) ((key, tree) ∷ trees)) (sym after)
          (
            (template_each-others trees saved.0 rest name executed.0 later apart first, full),
            template_each-Reported trees saved.0 rest unique later,
          )

    done_or_fail-returns :
        (saved : List (File C) × Bool)
        → (done_or_fail tool saved).1 ≡ returns tt
        → (saved.1 ≡ true) × ((done_or_fail tool saved).0 ≡ saved.0)
    done_or_fail-returns (files, false) h = absurd (cc)
    done_or_fail-returns (files, true) h = (refl, refl)

    template_reports-done :
        (r : List (File C) × Outcome (List BranchReport))
        → (template_reports tool action_url output r).1 ≡ returns tt
        → (reports : List BranchReport) × (r.1 ≡ returns reports)
          × ((content : C) × ((template_reports tool action_url output r).0
                ≡ write_file output (codes "report.html") content r.0))
    unfolding template_report
    template_reports-done (files, fails) h = absurd (cc)
    template_reports-done (files, panics) h = absurd (cc)
    template_reports-done (files, returns reports) h =
        let config = record (report_config tool action_url reports) {
          branch_reports = tool.sort_reports compare_reports reports;
        } in
        let executed = tool.execute_report config in
        let saved =
          execute_template_and_save tool.creates output (codes "report.html") executed files in
        let (done, same) = done_or_fail-returns saved h in
        let (wrote, full) =
          execute_template_and_save-saved output (codes "report.html") executed files done in
        (reports, refl, (executed.0, same ∙ wrote))

  -- When `templateTreeMap` returns no error, the output directory holds for each tree the file `report_`,
  -- the branch and `.html`, with what the template makes of the tree's configuration, if no two trees have
  -- one branch.
  pub template_tree_map-Reported :
      (action_url output : Text) (trees : Trees) (files : List (File C))
      → HasBranches trees
      → (template_tree_map tool action_url output trees files).1 ≡ returns tt
      → All
          (Reported action_url output (template_tree_map tool action_url output trees files).0)
          trees
  unfolding template_tree_map
  template_tree_map-Reported action_url output trees files unique =
      elim (Bool-cases tool.makes_output) [
        | inl e ↦ simp e (λ h.
            let (reports, built, (content, wrote)) =
              template_reports-done action_url output
                (template_each tool action_url output trees files) h in
            subst (λ fs. All (Reported action_url output fs) trees) (sym wrote)
              (All-map trees
                (λ e (holds, full). (
                  write_file-other output (codes "report.html") (report_name tool e.0.branch)
                      (λ same. report_name-report e.0.branch (sym same))
                      (tool.execute_tree (tree_config tool action_url e.0 e.1)).0 content
                      (template_each tool action_url output trees files).0 holds,
                  full,
                ))
                (template_each-Reported action_url output trees files reports unique built)))
        | inr e ↦ simp e (λ h. absurd (cc))
      ]
