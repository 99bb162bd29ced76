-- ===== src/Report/Cache/Store/Tests.antt =====
-- Runs of `Save`, `Load` and `CleanCache` on concrete files.
use medik8s_system_tests.Base.{
  ℕ, ◌≡◌, ◌↔◌, refl, sym, ap, true, false, not, List, [], ◌∷◌, some, ◌++◌,
}
use medik8s_system_tests.Go.Strings.{Text, codes, text_eq, is_space}
use medik8s_system_tests.Report.Cache.{CacheKey, lookup_key, find_revision, update, is_current}
use medik8s_system_tests.Report.Cache.Asked.{AnswersFor}
use medik8s_system_tests.Report.Cache.Name.{generate_cache_file_name, parse_cache_file_name}
use medik8s_system_tests.Report.Cache.Files.{delete_expired_files}
use medik8s_system_tests.Report.Cache.Get.{set_tree}
use medik8s_system_tests.Report.Cache.Disk.{
  remove_directory, File, has_slash, read_dir, remove_all, write_file,
}
use medik8s_system_tests.Report.Cache.Store.{
  Host, save, load, get_directory, clean_cache, new_cache_context,
}
use medik8s_system_tests.Report.Cache.Store.Reload.{load-save}
use medik8s_system_tests.Report.Cache.Store.Failure.{CanSave, save-CanSave}

abbrev latest : List (Text × Text)
latest = (codes "main", codes "r1") ∷ []

abbrev host : Host ℕ ℕ
host = record {
  source_code_sum = codes "f0";
  user_cache_dir = some (codes "/c");
  join = λ a b. a ++ (codes "/" ++ b);
  working_directory = codes "/work";
  makes_directory = true;
  is_readable = λ path. true;
  removes = λ name. true;
  stays = λ name file. false;
  removes_directory = true;
  creates = λ name. true;
  writes = λ name. true;
  closes = λ name. true;
  encode = λ tree. tree;
  opens = λ name. true;
  decompresses = true;
  decode = λ content. some content;
  torn = 0;
  remote = λ branches. some latest;
}

abbrev key : CacheKey
key = record { branch = codes "main"; revision = codes "r1" }

abbrev trees : List (CacheKey × ℕ)
trees = (key, 7) ∷ []

abbrev cache_path : Text
cache_path = codes "/c/system-tests"

abbrev saved : List (File ℕ)
saved =
    record {
      directory = cache_path;
      name = codes "main r1 f0.json.zstd";
      is_regular = true;
      content = 7;
    }
    ∷ []

at : get_directory host [] ≡ some cache_path
unfolding get_directory
at = refl

saves : save host [] trees [] ≡ (saved, true)
unfolding save generate_cache_file_name write_file delete_expired_files
saves = refl

loads : load host [] saved [] ≡ (trees, true)
unfolding load read_dir parse_cache_file_name update set_tree find_revision
loads = refl

latest-AnswersFor : AnswersFor (find_revision latest) (λ branches. some latest)
latest-AnswersFor branches told branch answered any =
    let same : latest ≡ told = cc in sym (ap (λ t. find_revision t branch) same)

load-save_example : lookup_key key trees ≡ some 7
load-save_example =
    load-save host [] cache_path key 7 trees trees [] saved (find_revision latest)
      (unfold is_space in (refl, (refl, tt)))
      (unfold is_space in ((refl, (refl, (refl, (refl, tt)))), (refl, (refl, tt))))
      (unfold is_space in (((refl, (refl, (refl, (refl, tt)))), (refl, (refl, tt))), tt))
      ((λ e. refl), tt) at refl refl (unfold has_slash generate_cache_file_name in refl) refl
      latest-AnswersFor (unfold is_current find_revision in refl) (unfold lookup_key in refl) saves
      (unfold read_dir parse_cache_file_name generate_cache_file_name in ((refl, (λ e. refl)), tt))
      loads

abbrev slashed : List (CacheKey × ℕ)
slashed = (record { branch = codes "a/b"; revision = codes "r1" }, 7) ∷ []

-- A machine on which no file can be made in a directory of the cache directory.
abbrev flat_host : Host ℕ ℕ
flat_host = record host { creates = λ name. not (has_slash name) }

slash_fails : (save flat_host [] slashed saved).1 ≡ false
unfolding save generate_cache_file_name delete_expired_files has_slash read_dir
    parse_cache_file_name lookup_key remove_all
slash_fails = refl

save-CanSave_example : ((save flat_host [] trees saved).1 ≡ true) ↔ CanSave flat_host [] trees saved
save-CanSave_example = save-CanSave flat_host [] trees saved refl

cleans : clean_cache host saved ≡ ([], true)
unfolding clean_cache remove_directory
cleans = refl

starts : new_cache_context {A = ℕ} host [] ≡ some []
unfolding new_cache_context read_dir update
starts = refl
