-- ===== src/Report/Main/Create.antt =====
-- `GetOrCreate` of internal/report/cache.go and `NewFromFile` of tree.go, with the commands that they run.
use medik8s_system_tests.Base.{Bool, true, false, List, [], Option, none, some, if◌then◌else◌, ◌==◌}
use medik8s_system_tests.Go.Strings.{Text, text_eq}
use medik8s_system_tests.Report.Tree.{SuiteTree, Report, new_from_reports}
use medik8s_system_tests.Report.Cache.Get.{
  Git, Answer, hit, miss, error, get_key_from_path, get, store_created,
}
use medik8s_system_tests.Report.Command.{
  dry_run, get_repo_branch, get_repo_revision, has_local_changes,
}
use medik8s_system_tests.Report.Main.{Outcome, returns, fails, panics, Trees, Tool}

module _ {W C : Type 0} (tool : Tool W C) where
  abbrev pub no_git : Git
  no_git = record { local_changes = none; branch = none; revision = none }

  abbrev pub ask_revision : Text → W × Option Text → W × Git
  ask_revision repo_path (w, none) = (w, record no_git { local_changes = some false })
  ask_revision repo_path (w, some branch) =
      let (later, revision) = get_repo_revision tool.machine repo_path w in
      (later, record { local_changes = some false; branch = some branch; revision = revision })

  abbrev pub ask_branch : Text → W × Option Bool → W × Git
  ask_branch repo_path (w, none) = (w, no_git)
  ask_branch repo_path (w, some true) = (w, record no_git { local_changes = some true })
  ask_branch repo_path (w, some false) =
      ask_revision repo_path (get_repo_branch tool.machine repo_path w)

  -- What `GetKeyFromPath` asks Git, up to the answer that ends it.
  unfoldable pub ask_git : (repo_path : Text) → W → W × Git
  ask_git repo_path w = ask_branch repo_path (has_local_changes tool.machine repo_path w)

  -- `NewFromFile`, of what the file holds.
  abbrev pub from_reports : Option (List (Report tool.join tool.its)) → Outcome SuiteTree
  from_reports none = fails
  from_reports (some reports) = elim (new_from_reports tool.join tool.its reports) [
    | none ↦ panics
    | some tree ↦ returns tree
  ]

  unfoldable pub new_from_file : (path : Text) → W → Outcome SuiteTree
  new_from_file path w = from_reports (tool.read_reports path w)

  abbrev pub remove_report : Text → W → Outcome SuiteTree → W × Outcome SuiteTree
  remove_report report_path w (returns tree) = (tool.remove report_path w, returns tree)
  remove_report report_path w fails = (w, fails)
  remove_report report_path w panics = (w, panics)

  abbrev pub read_report : W × Option Text → W × Outcome SuiteTree
  read_report (w, none) = (w, fails)
  read_report (w, some report_path) = remove_report report_path w (new_from_file report_path w)

  -- The part of `GetOrCreate` from the dry run to the removal of the report.
  unfoldable pub create_report : (repo_path : Text) → W → W × Outcome SuiteTree
  unfolding new_from_file
  create_report repo_path w = read_report (dry_run tool.machine repo_path w)

  abbrev pub keep_created : Text → W × Outcome SuiteTree → Trees → W × Outcome SuiteTree × Trees
  keep_created repo_path (w, fails) trees = (w, fails, trees)
  keep_created repo_path (w, panics) trees = (w, panics, trees)
  keep_created repo_path (w, returns tree) trees =
      let (later, git) = ask_git repo_path w in
      (later, returns tree, store_created (get_key_from_path git) tree trees)

  abbrev pub after_answer : Text → W → Answer SuiteTree → Trees → W × Outcome SuiteTree × Trees
  after_answer repo_path w (hit tree) trees = (w, returns tree, trees)
  after_answer repo_path w error trees = (w, fails, trees)
  after_answer repo_path w miss trees = keep_created repo_path (create_report repo_path w) trees

  -- `GetOrCreate`, with its commands.
  unfoldable pub run_get_or_create : (repo_path : Text) → W → Trees → W × Outcome SuiteTree × Trees
  unfolding ask_git create_report
  run_get_or_create repo_path w trees =
      let (asked, git) = ask_git repo_path w in
      let source_code_sum = tool.cache.source_code_sum in
      after_answer repo_path (if source_code_sum == [] then w else asked)
        (get source_code_sum git trees) trees
