-- ===== src/Report/Main/Local.antt =====
-- The report of a working tree with uncommitted changes.
use medik8s_system_tests.Base.{
  ◌≡◌, ◌≢◌, refl, ap, sym, subst, Bool, true, false, List, [], ◌∷◌, Option, none, some, arith,
}
use medik8s_system_tests.Go.Strings.{Text, codes, text_eq}
use medik8s_system_tests.Report.Tree.{SuiteTree}
use medik8s_system_tests.Report.Cache.Get.{Git, miss, get_key_from_path}
use medik8s_system_tests.Report.Cache.Store.{save, new_cache_context}
use medik8s_system_tests.Report.Cache.Disk.{File}
use medik8s_system_tests.Report.Command.{has_local_changes}
use medik8s_system_tests.Report.Main.{
  Outcome, returns, fails, panics, Trees, Tool, Flags, Exit, exit_0, exit_1, exit_2,
}
use medik8s_system_tests.Report.Main.Create.{ask_git, ask_branch, run_get_or_create}
use medik8s_system_tests.Report.Main.Collect.{
  local_key, local_map, name_local, get_local_tree_map, save_trees, tidy_saved, tidy_trees,
  tidy_tree, get_cached_trees, get_trees,
}
use medik8s_system_tests.Report.Main.Output.{print_tree_map, cut_revision}
use medik8s_system_tests.Report.Main.Start.{main_trees, main_output, main}

abbrev is_exit_0 : Exit → Bool
is_exit_0 exit_0 = true
is_exit_0 exit_1 = false
is_exit_0 exit_2 = false

module _ {W C : Type 0} (tool : Tool W C) where
  abbrev IsLocal : Outcome Trees → Type 0
  IsLocal (returns trees) = (tree : SuiteTree) × (trees ≡ (local_key tool, tree) ∷ [])
  IsLocal fails = Unit
  IsLocal panics = Unit

  abbrev dirty : Git
  dirty = record { local_changes = some true; branch = none; revision = none }

  ask_branch-dirty :
      (repo_path : Text) (r : W × Option Bool)
      → r.1 ≡ some true
      → (ask_branch tool repo_path r).1 ≡ dirty
  ask_branch-dirty repo_path (w, none) h = absurd (ground (arith, h))
  ask_branch-dirty repo_path (w, some true) h = refl
  ask_branch-dirty repo_path (w, some false) h = absurd (ground (arith, h))

  module _ (changed : (w : W) → (has_local_changes tool.machine (codes ".") w).1 ≡ some true) where
    key_missed : (w : W) → get_key_from_path (ask_git tool (codes ".") w).1 ≡ miss
    unfolding ask_git get_key_from_path
    key_missed w =
        ap get_key_from_path
          (ask_branch-dirty (codes ".") (has_local_changes tool.machine (codes ".") w) (changed w))

    name_local-IsLocal :
        (r : W × Outcome SuiteTree × Trees) → IsLocal (name_local tool (codes ".") r).1
    name_local-IsLocal (w, fails, trees) = tt
    name_local-IsLocal (w, panics, trees) = tt
    name_local-IsLocal (w, returns tree, trees) =
        subst (λ k. IsLocal (local_map tool tree k)) (sym (key_missed w)) (tree, refl)

    tidy_saved-IsLocal :
        (w : W) (tree : SuiteTree) (r : List (File C) × Bool)
        → IsLocal (tidy_saved tool w ((local_key tool, tree) ∷ []) r).1
    unfolding tidy_trees
    tidy_saved-IsLocal w tree (files, true) = (tidy_tree tool tree, refl)
    tidy_saved-IsLocal w tree (files, false) = tt

    save_trees-IsLocal :
        (files : List (File C)) (r : W × Outcome Trees × Trees)
        → IsLocal r.1
        → IsLocal (save_trees tool files r).1
    save_trees-IsLocal files (w, fails, cached) h = tt
    save_trees-IsLocal files (w, panics, cached) h = tt
    save_trees-IsLocal files (w, returns trees, cached) (tree, e) =
        let saved = save tool.cache [] cached files in
        subst (λ t. IsLocal (tidy_saved tool w t saved).1) (sym e) (tidy_saved-IsLocal w tree saved)

    get_trees-IsLocal :
        (cached : Option Trees) (w : W) (files : List (File C))
        → IsLocal (get_cached_trees tool [] cached w files).1
    unfolding get_cached_trees get_local_tree_map
    get_trees-IsLocal none w files = tt
    get_trees-IsLocal (some cached) w files =
        save_trees-IsLocal files
          (name_local tool (codes ".") (run_get_or_create tool (codes ".") w cached))
          (name_local-IsLocal (run_get_or_create tool (codes ".") w cached))

    main_trees-exit :
        (flags : Flags) (output_files : List (File C)) (r : W × Outcome Trees × List (File C))
        → IsLocal r.1
        → (main_trees tool flags output_files r).exit ≢ exit_0
    unfolding print_tree_map cut_revision
    main_trees-exit flags output_files (w, fails, files) h = λ e. ground (arith, ap is_exit_0 e)
    main_trees-exit flags output_files (w, panics, files) h = λ e. ground (arith, ap is_exit_0 e)
    main_trees-exit flags output_files (w, returns trees, files) (tree, e) =
        subst
          (λ t.
            (main_output tool flags w files output_files t (print_tree_map tool t)).exit ≢ exit_0)
          (sym e) (λ f. ground (arith, ap is_exit_0 f))

    -- When `git status` always shows uncommitted changes in the working directory, a run that reports
    -- the working directory does not succeed.
    pub main-local_changes :
        (flags : Flags) (w : W) (files output_files : List (File C))
        → flags.help ≡ false
        → flags.clean ≡ false
        → flags.branch ≡ []
        → (main tool flags w files output_files).exit ≢ exit_0
    unfolding main get_trees
    main-local_changes flags w files output_files help clean branch =
        simp (help, clean, branch)
          (main_trees-exit flags output_files
            (get_cached_trees tool [] (new_cache_context tool.cache files) w files)
            (get_trees-IsLocal (new_cache_context tool.cache files) w files))
