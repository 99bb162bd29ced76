-- ===== src/Report/Main.antt =====
-- internal/report/main.go: the report tool, over the cache, the suite trees and the commands. The state
-- of the machine is of any type; the files of the cache and those of the output are lists. A map is the
-- list of its entries in the order in which a `range` loop meets them. What `klog` writes is left out.
pub mod Create
pub mod Again
pub mod Collect
pub mod Output
pub mod Start
pub mod Registered
pub mod Written
pub mod Tidy
pub mod Remote
pub mod Local
mod Tests
use Prim.Native.Nat.{Ordering}
use medik8s_system_tests.Base.{
  ℕ, ◌≡◌, Bool, true, false, not, ◌&&◌, ◌||◌, List, [], ◌∷◌, ◌++◌, Option, none, some, length, ltb,
  take, if◌then◌else◌, ◌==◌,
}
use medik8s_system_tests.Go.Strings.{Text, codes, text_eq}
use medik8s_system_tests.Report.Tree.{SuiteTree, Children, Report, new_from_reports, SpecReport}
use medik8s_system_tests.Report.Tree.Print.{trim_root, string, size}
use medik8s_system_tests.Report.Tree.Sort.{sort}
use medik8s_system_tests.Report.Cache.{CacheKey}
use medik8s_system_tests.Report.Cache.Name.{fields}
use medik8s_system_tests.Report.Cache.Disk.{File}
use medik8s_system_tests.Report.Cache.Get.{
  Git, Answer, hit, miss, error, get_key_from_path, get, store_created,
}
use medik8s_system_tests.Report.Cache.Store.{
  Host, new_cache_context, save, clean_cache, match_remote,
}
use medik8s_system_tests.Report.Command.{
  Machine, clone_repo, dry_run, get_repo_branch, get_repo_revision, has_local_changes,
  get_remote_revisions, remote_url,
}
use medik8s_system_tests.Report.Template.{
  BranchReport, TreeTemplateConfig, ReportTemplateConfig, execute_template_and_save,
  template_report,
}

-- A call returns a value or an error, or panics.
pub data Outcome (A : Type 0) : Type 0 where
  returns : A → Outcome A
  fails panics : Outcome A

abbrev pub Trees : Type 0
Trees = List (CacheKey × SuiteTree)

-- The code that the tool ends with; a panic ends it with 2.
pub data Exit : Type 0 where
  exit_0 exit_1 exit_2 : Exit

-- What the tool runs on: Git and Ginkgo, the cache's host, and the calls of the libraries; `now` is the
-- time at the template of a tree, or of the report.
pub record Tool (W C : Type 0) : Type 0 where
  pub machine : Machine W
  pub cache : Host SuiteTree C
  pub remove : Text → W → W
  pub temp_dir : Text
  pub stats : Text → W → Bool
  pub join : Text → Text → Text
  pub its : List SpecReport → List SpecReport
  pub read_reports : Text → W → Option (List (Report join its))
  pub itoa : ℕ → Text
  pub sort_func : (SuiteTree → SuiteTree → Ordering) → Children → Children
  pub makes_output : Bool
  pub creates : Text → Bool
  pub execute_tree : TreeTemplateConfig → C × Bool
  pub sort_reports :
      (BranchReport → BranchReport → Ordering) → List BranchReport → List BranchReport
  pub execute_report : ReportTemplateConfig → C × Bool
  pub now : Option CacheKey → ℕ

pub record Flags : Type 0 where
  pub help : Bool
  pub action_url : Text
  pub branch : Text
  pub clean : Bool
  pub output : Text

-- What the tool leaves: the machine, the files, what it printed, and its code.
pub record Finished (W C : Type 0) : Type 0 where
  pub machine : W
  pub files : List (File C)
  pub output_files : List (File C)
  pub printed : Text
  pub exit : Exit
