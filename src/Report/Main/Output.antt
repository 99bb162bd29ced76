-- ===== src/Report/Main/Output.antt =====
-- `printTreeMap` and `templateTreeMap`.
use medik8s_system_tests.Base.{
  Bool, true, false, List, [], ◌∷◌, ◌++◌, Option, none, some, length, ltb, take, if◌then◌else◌,
}
use medik8s_system_tests.Go.Strings.{Text, codes, text_eq}
use medik8s_system_tests.Report.Tree.Print.{string}
use medik8s_system_tests.Report.Cache.{CacheKey}
use medik8s_system_tests.Report.Cache.Disk.{File}
use medik8s_system_tests.Report.Template.{
  BranchReport, TreeTemplateConfig, ReportTemplateConfig, template_tree, template_report,
}
use medik8s_system_tests.Report.Tree.{SuiteTree}
use medik8s_system_tests.Report.Command.{remote_url}
use medik8s_system_tests.Report.Main.{Outcome, returns, fails, panics, Trees, Tool}

-- `time.RFC3339`
abbrev pub rfc3339 : Text
rfc3339 = codes "2006-01-02T15:04:05Z07:00"

module _ {W C : Type 0} (tool : Tool W C) where
  abbrev Files : Type 0
  Files = List (File C)

  -- `key.Revision[:7]`, which panics on a shorter text.
  unfoldable pub cut_revision : CacheKey → Option Text
  cut_revision key = if ltb (length key.revision) 7 then none else some (take 7 key.revision)

  abbrev pub header_lines : CacheKey → Text → Text
  header_lines key short =
      codes "---"
      ++ (10
          ∷ (codes "Branch "
              ++ (key.branch ++ (codes " (" ++ (short ++ (codes ")" ++ (10 ∷ [])))))))

  -- `printTreeMap`: what it writes, and whether it does not panic.
  unfoldable pub print_tree_map : Trees → Text × Bool
  unfolding cut_revision
  print_tree_map [] = ([], true)
  print_tree_map ((key, tree) ∷ trees) =
      let (later, done) = print_tree_map trees in
      elim (cut_revision key) [
        | none ↦ (codes "---" ++ (10 ∷ []), false)
        | some short ↦ (header_lines key short ++ (string tool.itoa tree ++ later), done)
      ]

  abbrev pub report_name : Text → Text
  report_name branch = codes "report_" ++ (branch ++ codes ".html")

  abbrev pub add_branch_report :
      CacheKey
      → (short : Text) → Files × Outcome (List BranchReport)
      → Files × Outcome (List BranchReport)
  add_branch_report key short (files, fails) = (files, fails)
  add_branch_report key short (files, panics) = (files, panics)
  add_branch_report key short (files, returns reports) = (
    files,
    returns (
        record {
          name = key.branch;
          report_file = report_name key.branch;
          revision = key.revision;
          short_revision = short;
        }
        ∷ reports),
  )

  abbrev pub with_short :
      CacheKey
      → (next : Files → Files × Outcome (List BranchReport)) → Files
      → Option Text
      → Files × Outcome (List BranchReport)
  with_short key next files none = (files, panics)
  with_short key next files (some short) = add_branch_report key short (next files)

  -- What follows a tree's template: the short revision, and the next tree.
  abbrev pub then_report :
      CacheKey
      → (next : Files → Files × Outcome (List BranchReport)) → Files × Bool
      → Files × Outcome (List BranchReport)
  then_report key next (files, false) = (files, fails)
  then_report key next (files, true) = with_short key next files (cut_revision key)

  abbrev pub tree_config : (action_url : Text) → CacheKey → SuiteTree → TreeTemplateConfig
  tree_config action_url key tree = record {
    tree = tree;
    generated = tool.now (some key);
    branch = key.branch;
    action_url = action_url;
    repo_url = remote_url;
    time_format = rfc3339;
  }

  -- The loop of `templateTreeMap`.
  unfoldable pub template_each :
      (action_url output : Text) → Trees → Files → Files × Outcome (List BranchReport)
  unfolding cut_revision template_tree
  template_each action_url output [] files = (files, returns [])
  template_each action_url output ((key, tree) ∷ trees) files =
      then_report key (template_each action_url output trees) (
        template_tree tool.creates output tool.execute_tree (tree_config action_url key tree)
          (report_name key.branch) files)

  abbrev pub done_or_fail : Files × Bool → Files × Outcome Unit
  done_or_fail (files, true) = (files, returns tt)
  done_or_fail (files, false) = (files, fails)

  abbrev pub report_config : (action_url : Text) → List BranchReport → ReportTemplateConfig
  report_config action_url reports = record {
    branch_reports = reports;
    generated = tool.now none;
    action_url = action_url;
    repo_url = remote_url;
    time_format = rfc3339;
  }

  abbrev pub template_reports :
      (action_url output : Text) → Files × Outcome (List BranchReport) → Files × Outcome Unit
  template_reports action_url output (files, fails) = (files, fails)
  template_reports action_url output (files, panics) = (files, panics)
  template_reports action_url output (files, returns reports) = done_or_fail (
      template_report tool.creates output tool.sort_reports tool.execute_report
        (report_config action_url reports) (codes "report.html") files)

  -- `templateTreeMap`
  unfoldable pub template_tree_map :
      (action_url output : Text) → Trees → Files → Files × Outcome Unit
  unfolding template_each template_report
  template_tree_map action_url output trees files =
      let written =
        template_reports action_url output (template_each action_url output trees files) in
      if tool.makes_output then written else (files, fails)
