-- ===== src/Report/Main/Again.antt =====
-- A second call of `GetOrCreate`, with its commands.
use medik8s_system_tests.Base.{
  ◌≡◌, ◌≢◌, refl, ap, sym, ◌∙◌, inl, inr, false, [], some, Bool-cases, Option-cases, ◌==◌,
}
use medik8s_system_tests.Go.Strings.{Text, text_eq, text_beq_iff}
use medik8s_system_tests.Report.Tree.{SuiteTree}
use medik8s_system_tests.Report.Cache.{CacheKey, lookup_key}
use medik8s_system_tests.Report.Cache.Get.{
  Answer, hit, miss, get, get_key_from_path, or_miss, store_created, get-key, lookup_key-set_tree,
}
use medik8s_system_tests.Report.Main.{Outcome, returns, fails, panics, Trees, Tool}
use medik8s_system_tests.Report.Main.Create.{
  ask_git, create_report, keep_created, after_answer, run_get_or_create,
}

module _ {W C : Type 0} (tool : Tool W C) (repo_path : Text) (key : CacheKey) where
  module _ (known : tool.cache.source_code_sum ≢ [])
      (same_key : (w : W) → get_key_from_path (ask_git tool repo_path w).1 ≡ hit key) where
    asked-get :
        (w : W) (trees : Trees)
        → get tool.cache.source_code_sum (ask_git tool repo_path w).1 trees
          ≡ or_miss (lookup_key key trees)
    asked-get w trees =
        get-key tool.cache.source_code_sum (ask_git tool repo_path w).1 key trees known (same_key w)

    run_get_or_create-after_answer :
        (w : W) (trees : Trees) (answer : Answer SuiteTree)
        → or_miss (lookup_key key trees) ≡ answer
        → run_get_or_create tool repo_path w trees
          ≡ after_answer tool repo_path (ask_git tool repo_path w).0 answer trees
    unfolding run_get_or_create
    run_get_or_create-after_answer w trees answer e =
        let known' : (tool.cache.source_code_sum == []) ≡ false =
          elim (Bool-cases (tool.cache.source_code_sum == [])) [
            | inl t ↦ absurd (known ((text_beq_iff tool.cache.source_code_sum []).0 t))
            | inr t ↦ t
          ] in
        rw (known', asked-get w trees, e) refl

    keep_created-lookup_key :
        (r : W × Outcome SuiteTree) (trees kept : Trees) (w : W) (tree : SuiteTree)
        → keep_created tool repo_path r trees ≡ (w, returns tree, kept)
        → lookup_key key kept ≡ some tree
    unfolding store_created
    keep_created-lookup_key (later, fails) trees kept w tree h = absurd (cc)
    keep_created-lookup_key (later, panics) trees kept w tree h = absurd (cc)
    keep_created-lookup_key (later, returns new) trees kept w tree h =
        let stored : store_created (get_key_from_path (ask_git tool repo_path later).1) new trees
            ≡ kept =
          ap (λ t. t.2) h in
        let found : lookup_key key
              (store_created (get_key_from_path (ask_git tool repo_path later).1) new trees)
            ≡ some new =
          rw (same_key later) (lookup_key-set_tree key new trees) in
        let given : new ≡ tree = cc in sym (ap (lookup_key key) stored) ∙ found ∙ ap some given

    run_get_or_create-lookup_key :
        (w later : W) (trees kept : Trees) (tree : SuiteTree)
        → run_get_or_create tool repo_path w trees ≡ (later, returns tree, kept)
        → lookup_key key kept ≡ some tree
    run_get_or_create-lookup_key w later trees kept tree h =
        elim (Option-cases (lookup_key key trees)) [
          | inl missing ↦
              let run = run_get_or_create-after_answer w trees miss (ap or_miss missing) in
              keep_created-lookup_key (create_report tool repo_path (ask_git tool repo_path w).0)
                trees kept later tree (sym run ∙ h)
          | inr (old, found) ↦
              let run = run_get_or_create-after_answer w trees (hit old) (ap or_miss found) in
              let same = sym run ∙ h in
              let given : old ≡ tree = cc in
              sym (ap (λ t. lookup_key key t.2) same) ∙ found ∙ ap some given
        ]

    -- When the checksum of the source code is known and Git gives one key for the repository whenever it is
    -- asked, which means that it answers and there are no local changes, then after a `GetOrCreate`
    -- that returned a tree, a second one asks Git, runs nothing else, returns the same tree and leaves the
    -- cache as it is.
    pub run_get_or_create-again :
        (w later : W) (trees kept : Trees) (tree : SuiteTree)
        → run_get_or_create tool repo_path w trees ≡ (later, returns tree, kept)
        → run_get_or_create tool repo_path later kept
          ≡ ((ask_git tool repo_path later).0, returns tree, kept)
    run_get_or_create-again w later trees kept tree h =
        run_get_or_create-after_answer later kept (hit tree)
          (ap or_miss (run_get_or_create-lookup_key w later trees kept tree h))
