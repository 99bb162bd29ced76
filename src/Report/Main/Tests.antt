-- ===== src/Report/Main/Tests.antt =====
-- Runs of the report tool on a machine whose working tree has uncommitted changes.
use medik8s_system_tests.Base.{
  ℕ, suc, ◌≡◌, ◌≢◌, refl, true, false, List, [], ◌∷◌, ◌++◌, none, some, arith, if◌then◌else◌, ◌==◌,
}
use medik8s_system_tests.Go.Strings.{Text, codes, text_eq, trim_by}
use medik8s_system_tests.Report.Tree.{SuiteTree, suite, end, new_from_reports}
use medik8s_system_tests.Report.Tree.Sort.Insertion.{insertion_sort}
use medik8s_system_tests.Report.Cache.{CacheKey, lookup_key}
use medik8s_system_tests.Report.Cache.Store.{match_remote, Host}
use medik8s_system_tests.Report.Command.{
  Machine, has_local_changes, get_repo_branch, get_repo_revision, dry_run, get_remote_revisions,
  remote_url,
}
use medik8s_system_tests.Report.Main.{Tool, Trees, exit_0, returns}
use medik8s_system_tests.Report.Main.Create.{ask_git, run_get_or_create}
use medik8s_system_tests.Report.Main.Again.{run_get_or_create-again}
use medik8s_system_tests.Report.Cache.Get.{get, get_key_from_path, store_created}
use medik8s_system_tests.Report.Main.Start.{main}
use medik8s_system_tests.Report.Main.Collect.{get_from_cache_or_clone}
use medik8s_system_tests.Report.Main.Output.{template_tree_map}
use medik8s_system_tests.Report.Main.Written.{Reported, template_tree_map-Reported}
use medik8s_system_tests.Report.Main.Registered.{start, clean_is}
use medik8s_system_tests.Report.Cache.Store.{clean_cache}
use medik8s_system_tests.Base.{All}
use medik8s_system_tests.Report.Main.Local.{main-local_changes}
use medik8s_system_tests.Report.Main.Remote.{IsFilled, get_from_cache_or_clone-IsFilled}

-- Every command prints the same line.
abbrev machine : Machine ℕ
machine = record {
  removes_all = λ path w. (w, true);
  execute = λ command w. (w, some (codes "f1" ++ (9 ∷ codes "refs/heads/main")));
  join = λ a b. a ++ (codes "/" ++ b);
}

abbrev host : Host SuiteTree ℕ
host = record {
  source_code_sum = codes "f0";
  user_cache_dir = some (codes "/c");
  join = λ a b. a ++ (codes "/" ++ b);
  working_directory = codes "/work";
  makes_directory = true;
  is_readable = λ path. true;
  removes = λ name. true;
  stays = λ name file. false;
  removes_directory = true;
  creates = λ name. true;
  writes = λ name. true;
  closes = λ name. true;
  encode = λ tree. 0;
  opens = λ name. true;
  decompresses = true;
  decode = λ content. none;
  torn = 0;
  remote = λ branches. some [];
}

abbrev tool : Tool ℕ ℕ
tool = record {
  machine = machine;
  cache = host;
  join = λ a b. a ++ (codes "/" ++ b);
  its = λ specs. specs;
  read_reports = λ path w. some [];
  remove = λ path w. w;
  temp_dir = codes "/tmp";
  stats = λ path w. true;
  itoa = λ n. n ∷ [];
  sort_func = insertion_sort;
  makes_output = true;
  creates = λ name. true;
  execute_tree = λ config. (1, true);
  sort_reports = λ cmp reports. reports;
  execute_report = λ config. (2, true);
  now = λ key. 0;
}

abbrev main_key : CacheKey
main_key = record { branch = codes "main"; revision = codes "f1" }

abbrev trees : Trees
trees =
    (
      main_key,
      suite
          (record { path = codes "/"; name = []; description = []; specs = 3; spec_report = none })
          end,
    )
    ∷ []

main-local_changes_example :
    (main tool
      (record { help = false; action_url = codes "/"; branch = []; clean = false; output = [] })
      0
      []
      []).exit
    ≢ exit_0
main-local_changes_example =
    main-local_changes tool (λ w. unfold has_local_changes in refl)
      (record { help = false; action_url = codes "/"; branch = []; clean = false; output = [] }) 0
      [] [] refl refl refl

-- A machine whose working tree is clean, which counts its commands.
abbrev clean_machine : Machine ℕ
clean_machine = record machine {
  execute = λ command w. (
    suc w,
    elim command.arguments [
      | [] ↦ none
      | first ∷ rest ↦ if first == codes "status" then some [] else some (codes "r1")
    ],
  );
}

abbrev clean_tool : Tool ℕ ℕ
clean_tool = record tool { machine = clean_machine }

abbrev root : SuiteTree
root =
    suite (record { path = codes "/"; name = []; description = []; specs = 0; spec_report = none })
      end

abbrev root_key : CacheKey
root_key = record { branch = codes "r1"; revision = codes "r1" }

-- Three questions to Git, the dry run, and three more.
creates_root :
    run_get_or_create clean_tool (codes ".") 0 [] ≡ (7, returns root, (root_key, root) ∷ [])
unfolding run_get_or_create has_local_changes get_repo_branch get_repo_revision dry_run get
    get_key_from_path lookup_key store_created new_from_reports trim_by
creates_root = refl

run_get_or_create-again_example :
    run_get_or_create clean_tool (codes ".") 7 ((root_key, root) ∷ [])
    ≡ ((ask_git clean_tool (codes ".") 7).0, returns root, (root_key, root) ∷ [])
run_get_or_create-again_example =
    run_get_or_create-again clean_tool (codes ".") root_key (λ e. absurd (ground arith))
      (λ w.
        unfold ask_git has_local_changes get_repo_branch get_repo_revision get_key_from_path in
        refl)
      0 7 [] ((root_key, root) ∷ []) root creates_root

filled : (get_from_cache_or_clone tool (codes "main" ∷ []) 0 trees).1 ≡ returns trees
unfolding get_from_cache_or_clone match_remote get_remote_revisions lookup_key
filled = refl

get_from_cache_or_clone-IsFilled_example :
    (revisions : List (Text × Text)) × ((get_remote_revisions machine remote_url
        (codes "main" ∷ [])
        0).1
      ≡ some revisions)
    × IsFilled trees revisions trees
get_from_cache_or_clone-IsFilled_example =
    get_from_cache_or_clone-IsFilled tool (codes "main" ∷ []) 0 trees trees filled

-- A revision as Git gives it is longer.
abbrev full_trees : Trees
full_trees =
    (
      record { branch = codes "main"; revision = codes "0123456789" },
      suite
          (record { path = codes "/"; name = []; description = []; specs = 3; spec_report = none })
          end,
    )
    ∷ []

written : (template_tree_map tool (codes "/") (codes "/out") full_trees []).1 ≡ returns tt
unfolding template_tree_map
written = refl

template_tree_map-Reported_example :
    All
      (Reported tool
        (codes "/")
        (codes "/out")
        (template_tree_map tool (codes "/") (codes "/out") full_trees []).0)
      full_trees
template_tree_map-Reported_example =
    template_tree_map-Reported tool (codes "/") (codes "/out") full_trees [] (tt, tt) written

-- The flag `-c` cleans the cache.
started :
    (start (λ flags args. some (clean_is true ∷ [])) tool (codes "-c" ∷ []) 0 [] []).exit ≡ exit_0
unfolding start clean_cache
started = refl
