-- ===== src/Report/Template.antt =====
-- internal/report/template.go. What a template makes of its configuration, and `slices.SortFunc`, are
-- parameters.
pub mod Clean
mod Tests
use Prim.Native.Nat.{Ordering}
use medik8s_system_tests.Base.{
  ℕ, ◌≡◌, Bool, true, false, not, List, [], ◌∷◌, ◌++◌, Option, none, some, if◌then◌else◌, ◌==◌,
}
use medik8s_system_tests.Go.Strings.{Text, codes, text_eq, split}
use medik8s_system_tests.Report.Cache.Disk.{File, write_file}
use medik8s_system_tests.Report.Tree.{SuiteTree}
use medik8s_system_tests.Report.Tree.Sort.{compare_text}

-- `BranchReportConfig`
pub record BranchReport : Type 0 where
  pub name : Text
  pub report_file : Text
  pub revision : Text
  pub short_revision : Text

-- A time is a number.
pub record TreeTemplateConfig : Type 0 where
  pub tree : SuiteTree
  pub generated : ℕ
  pub branch : Text
  pub action_url : Text
  pub repo_url : Text
  pub time_format : Text

pub record ReportTemplateConfig : Type 0 where
  pub branch_reports : List BranchReport
  pub generated : ℕ
  pub action_url : Text
  pub repo_url : Text
  pub time_format : Text

abbrev pub separator : ℕ
separator = 47

-- The loop of `cleanPath` over the elements: those from the first `system-tests`.
unfoldable pub from_root : List Text → Option (List Text)
from_root [] = none
from_root (element ∷ elements) =
    let later = from_root elements in
    if element == codes "system-tests" then some (element ∷ elements) else later

abbrev pub or_path : Text → (join : List Text → Text) → Option (List Text) → Text
or_path path join none = path
or_path path join (some elements) = join elements

-- `cleanPath`; `join` is `filepath.Join`.
unfoldable pub clean_path : (join : List Text → Text) → Text → Text
unfolding from_root split
clean_path join path = or_path path join (from_root (split separator path))

-- The comparison of `TemplateReport`.
unfoldable pub compare_reports : BranchReport → BranchReport → Ordering
unfolding compare_text
compare_reports a b = compare_text a.name b.name

module _ {C : Type 0} (creates : Text → Bool) (output : Text) where
  -- `executeTemplateAndSave`, of what the template makes: some text, or after an error a part of it. The
  -- name is the path from the output directory, and `creates` whether `os.Create` can make the file.
  unfoldable pub execute_template_and_save :
      (name : Text) → (executed : C × Bool) → List (File C) → List (File C) × Bool
  execute_template_and_save name (content, done) files =
      if not (creates name) then (files, false) else (write_file output name content files, done)

  -- `TemplateTree`
  unfoldable pub template_tree :
      (execute : TreeTemplateConfig → C × Bool)
      → TreeTemplateConfig
      → (name : Text) → List (File C)
      → List (File C) × Bool
  unfolding execute_template_and_save
  template_tree execute config name files = execute_template_and_save name (execute config) files

  -- `TemplateReport`, which sorts the reports in place.
  unfoldable pub template_report :
      (sort_func : (BranchReport → BranchReport → Ordering) → List BranchReport → List BranchReport)
      (execute : ReportTemplateConfig → C × Bool)
      → ReportTemplateConfig
      → (name : Text) → List (File C)
      → List (File C) × Bool
  unfolding execute_template_and_save compare_reports
  template_report sort_func execute config name files =
      execute_template_and_save name
        (execute
          (record config { branch_reports = sort_func compare_reports config.branch_reports }))
        files
