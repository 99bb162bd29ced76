-- ===== src/Report/Main/Collect.antt =====
-- `getLocalTreeMap`, `getFromCacheOrClone` and `getTrees`.
use medik8s_system_tests.Base.{
  Bool, true, false, not, List, [], ◌∷◌, Option, none, some, if◌then◌else◌, ◌==◌,
}
use medik8s_system_tests.Go.Strings.{Text, codes, text_eq}
use medik8s_system_tests.Report.Tree.{SuiteTree}
use medik8s_system_tests.Report.Tree.Print.{trim_root, size}
use medik8s_system_tests.Report.Tree.Sort.{sort}
use medik8s_system_tests.Report.Cache.{CacheKey}
use medik8s_system_tests.Report.Cache.Name.{fields}
use medik8s_system_tests.Report.Cache.Disk.{File}
use medik8s_system_tests.Report.Cache.Get.{Answer, hit, miss, error, get_key_from_path}
use medik8s_system_tests.Report.Cache.Store.{new_cache_context, save, match_remote}
use medik8s_system_tests.Report.Command.{clone_repo, get_remote_revisions, remote_url}
use medik8s_system_tests.Report.Main.{Outcome, returns, fails, panics, Trees, Tool}
use medik8s_system_tests.Report.Main.Create.{ask_git, run_get_or_create}

module _ {W C : Type 0} (tool : Tool W C) where
  abbrev Files : Type 0
  Files = List (File C)

  abbrev pub local_key : CacheKey
  local_key = record { branch = codes "local"; revision = codes "local" }

  abbrev pub local_map : SuiteTree → Answer CacheKey → Outcome Trees
  local_map tree (hit key) = returns ((key, tree) ∷ [])
  local_map tree miss = returns ((local_key, tree) ∷ [])
  local_map tree error = fails

  abbrev pub name_local : Text → W × Outcome SuiteTree × Trees → W × Outcome Trees × Trees
  name_local repo_path (w, fails, trees) = (w, fails, trees)
  name_local repo_path (w, panics, trees) = (w, panics, trees)
  name_local repo_path (w, returns tree, trees) =
      let (later, git) = ask_git tool repo_path w in
      (later, local_map tree (get_key_from_path git), trees)

  -- `getLocalTreeMap`
  unfoldable pub get_local_tree_map : (repo_path : Text) → W → Trees → W × Outcome Trees × Trees
  unfolding run_get_or_create
  get_local_tree_map repo_path w trees =
      name_local repo_path (run_get_or_create tool repo_path w trees)

  abbrev pub create_cloned : W × Option Text → Trees → W × Outcome SuiteTree × Trees
  create_cloned (w, none) trees = (w, fails, trees)
  create_cloned (w, some repo_path) trees = run_get_or_create tool repo_path w trees

  -- The tree of one entry: the cached one, or that of a clone.
  unfoldable pub fill_entry :
      CacheKey → Option SuiteTree → W → Trees → W × Outcome SuiteTree × Trees
  fill_entry key (some tree) w trees = (w, returns tree, trees)
  fill_entry key none w trees =
      create_cloned (clone_repo tool.machine tool.temp_dir remote_url key.branch w) trees

  abbrev pub put_entry :
      CacheKey → SuiteTree → W × Outcome Trees × Trees → W × Outcome Trees × Trees
  put_entry key tree (w, returns filled, trees) = (w, returns ((key, tree) ∷ filled), trees)
  put_entry key tree (w, fails, trees) = (w, fails, trees)
  put_entry key tree (w, panics, trees) = (w, panics, trees)

  abbrev pub then_fill :
      CacheKey
      → (next : W → Trees → W × Outcome Trees × Trees) → W × Outcome SuiteTree × Trees
      → W × Outcome Trees × Trees
  then_fill key next (w, fails, trees) = (w, fails, trees)
  then_fill key next (w, panics, trees) = (w, panics, trees)
  then_fill key next (w, returns tree, trees) = put_entry key tree (next w trees)

  -- The loop of `getFromCacheOrClone`.
  unfoldable pub fill_each :
      List (CacheKey × Option SuiteTree) → W → Trees → W × Outcome Trees × Trees
  unfolding fill_entry
  fill_each [] w trees = (w, returns [], trees)
  fill_each ((key, cached) ∷ entries) w trees =
      then_fill key (fill_each entries) (fill_entry key cached w trees)

  unfoldable pub fill_matches :
      Answer (List (CacheKey × Option SuiteTree)) → W → Trees → W × Outcome Trees × Trees
  unfolding fill_each
  fill_matches miss w trees = (w, fails, trees)
  fill_matches error w trees = (w, fails, trees)
  fill_matches (hit entries) w trees =
      let filled = fill_each entries w trees in
      if tool.stats tool.temp_dir w then filled else (w, fails, trees)

  -- `getFromCacheOrClone`
  unfoldable pub get_from_cache_or_clone :
      (patterns : List Text) → W → Trees → W × Outcome Trees × Trees
  unfolding fill_matches
  get_from_cache_or_clone patterns w trees =
      let (asked, revisions) = get_remote_revisions tool.machine remote_url patterns w in
      let filled = fill_matches (match_remote tool.cache trees revisions) asked trees in
      if tool.cache.source_code_sum == [] then (w, fails, trees) else filled

  -- The last loop of `getTrees`. The fuel is the number of nodes, which is enough.
  abbrev pub or_unsorted : SuiteTree → Option SuiteTree → SuiteTree
  or_unsorted tree none = tree
  or_unsorted tree (some sorted) = sorted

  unfoldable pub tidy_tree : SuiteTree → SuiteTree
  tidy_tree tree =
      let trimmed = trim_root tree in
      or_unsorted trimmed (sort tool.sort_func true (size trimmed) trimmed)

  unfoldable pub tidy_trees : Trees → Trees
  unfolding tidy_tree
  tidy_trees [] = []
  tidy_trees ((key, tree) ∷ trees) = (key, tidy_tree tree) ∷ tidy_trees trees

  abbrev pub tidy_saved : W → Trees → Files × Bool → W × Outcome Trees × Files
  tidy_saved w trees (files, true) = (w, returns (tidy_trees trees), files)
  tidy_saved w trees (files, false) = (w, fails, files)

  -- The part of `getTrees` from the test of the error.
  abbrev pub save_trees : Files → W × Outcome Trees × Trees → W × Outcome Trees × Files
  save_trees files (w, fails, cached) = (w, fails, files)
  save_trees files (w, panics, cached) = (w, panics, files)
  save_trees files (w, returns trees, cached) = tidy_saved w trees (save tool.cache [] cached files)

  unfoldable pub get_cached_trees :
      (branch : Text) → Option Trees → W → Files → W × Outcome Trees × Files
  unfolding get_local_tree_map get_from_cache_or_clone tidy_trees
  get_cached_trees branch none w files = (w, fails, files)
  get_cached_trees branch (some cached) w files =
      if not (branch == [])
      then save_trees files (get_from_cache_or_clone (fields branch) w cached)
      else save_trees files (get_local_tree_map (codes ".") w cached)

  -- `getTrees`
  unfoldable pub get_trees : (branch : Text) → W → Files → W × Outcome Trees × Files
  unfolding get_cached_trees
  get_trees branch w files = get_cached_trees branch (new_cache_context tool.cache files) w files
