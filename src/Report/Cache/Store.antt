-- ===== src/Report/Cache/Store.antt =====
-- `Load`, `Save`, `NewCacheContext`, `CleanCache`, `GetRemotePatterns` and `getDirectory`.
pub mod Loading
pub mod Writing
pub mod Reload
pub mod Failure
pub mod Clean
mod Tests
use medik8s_system_tests.Base.{
  ◌≡◌, Bool, true, false, not, ◌&&◌, List, [], ◌∷◌, Option, none, some, if◌then◌else◌, ◌==◌,
}
use medik8s_system_tests.Go.Strings.{Text, codes, text_eq}
use medik8s_system_tests.Report.Cache.{CacheKey, lookup_key, update}
use medik8s_system_tests.Report.Cache.Name.{generate_cache_file_name, parse_cache_file_name}
use medik8s_system_tests.Report.Cache.Disk.{File, read_dir, write_file, remove_directory}
use medik8s_system_tests.Report.Cache.Files.{delete_expired_files}
use medik8s_system_tests.Report.Cache.Get.{Answer, hit, miss, error, set_tree}

-- The machine that the tool runs on: which calls on its disk succeed, what the codec of the files does,
-- and what Git answers of the remote repository. A tree is encoded into a compressor, whose errors are
-- those of `writes`; what it still holds is written when it is closed, behind the return value, so that
-- the source ignores whether that `closes`. `torn` is what a write that fails leaves, and `stays` what is
-- left of a path by a removal that fails.
pub record Host (A C : Type 0) : Type 0 where
  pub source_code_sum : Text
  pub user_cache_dir : Option Text
  pub join : Text → Text → Text
  pub working_directory : Text
  pub makes_directory : Bool
  pub is_readable : Text → Bool
  pub removes : Text → Bool
  pub stays : Text → File C → Bool
  pub removes_directory : Bool
  pub creates : Text → Bool
  pub writes : Text → Bool
  pub closes : Text → Bool
  pub encode : A → C
  pub opens : Text → Bool
  pub decompresses : Bool
  pub decode : C → Option A
  pub torn : C
  pub remote : List Text → Option (List (Text × Text))

module _ {A C : Type 0} (host : Host A C) where
  unfoldable pub get_directory : (stored : Text) → Option Text
  get_directory stored = if not (stored == []) then some stored else elim host.user_cache_dir [
    | none ↦ none
    | some user_cache ↦ some (host.join user_cache (codes "system-tests"))
  ]

  abbrev pub Trees : Type 0
  Trees = List (CacheKey × A)

  abbrev pub Files : Type 0
  Files = List (File C)

  -- One file of the loop of `Load`, when it is regular and of this program.
  unfoldable pub is_own : File C → Bool
  is_own file = file.is_regular && (parse_cache_file_name file.name).1 == host.source_code_sum

  unfoldable pub add_loaded :
      CacheKey → Option A → (next : Trees → Trees × Bool) → Trees → Trees × Bool
  add_loaded key none next trees = (trees, false)
  add_loaded key (some tree) next trees = next (set_tree key tree trees)

  -- `loadCacheFile`
  unfoldable pub load_cache_file : File C → Option A
  load_cache_file file =
      if not (host.opens file.name)
      then none
      else if not host.decompresses
      then none
      else host.decode file.content

  unfoldable pub load_each : (entries : Files) → Trees → Trees × Bool
  unfolding is_own add_loaded load_cache_file
  load_each [] trees = (trees, true)
  load_each (entry ∷ entries) trees =
      let next = load_each entries in
      let key = (parse_cache_file_name entry.name).0 in
      if is_own entry then add_loaded key (load_cache_file entry) next trees else next trees

  -- A loop that met an error ends `Load`; else `Update` follows.
  unfoldable pub update_loaded : Trees × Bool → Trees × Bool
  update_loaded (trees, false) = (trees, false)
  update_loaded (trees, true) = update host.source_code_sum host.remote trees

  unfoldable pub load_from : Option Text → Files → Trees → Trees × Bool
  unfolding load_each update_loaded
  load_from none files trees = (trees, false)
  load_from (some cache_path) files trees =
      let loaded = update_loaded (load_each (read_dir cache_path files) trees) in
      if host.source_code_sum == []
      then (trees, true)
      else if not (host.is_readable cache_path)
      then (trees, true)
      else loaded

  -- `Load`
  unfoldable pub load : (stored : Text) → Files → Trees → Trees × Bool
  unfolding get_directory load_from
  load stored = load_from (get_directory stored)

  -- `NewCacheContext`
  unfoldable pub or_failed : Trees × Bool → Option Trees
  or_failed (trees, true) = some trees
  or_failed (trees, false) = none

  unfoldable pub new_cache_context : Files → Option Trees
  unfolding load or_failed
  new_cache_context files = or_failed (load [] files [])

  -- `saveCacheFile`, of a path from the cache directory. `creates` is whether `os.Create` can make the file,
  -- which asks for the directory that a name with a slash names.
  unfoldable pub save_cache_file : (cache_path name : Text) → A → Files → Files × Bool
  save_cache_file cache_path name tree files =
      let content = if host.closes name then host.encode tree else host.torn in
      if not (host.creates name)
      then (files, false)
      else if host.writes name
      then (write_file cache_path name content files, true)
      else (write_file cache_path name host.torn files, false)

  -- What follows a step that may have failed.
  unfoldable pub unless_failed : Files × Bool → (Files → Files × Bool) → Files × Bool
  unless_failed (files, false) next = (files, false)
  unless_failed (files, true) next = next files

  unfoldable pub save_each : (cache_path : Text) → Trees → Files → Files × Bool
  unfolding save_cache_file unless_failed
  save_each cache_path [] files = (files, true)
  save_each cache_path ((key, tree) ∷ trees) files =
      let next = save_each cache_path trees in
      unless_failed
        (save_cache_file cache_path (generate_cache_file_name host.source_code_sum key) tree files)
        next

  unfoldable pub save_in : Option Text → Trees → Files → Files × Bool
  unfolding save_each
  save_in none trees files = (files, false)
  save_in (some cache_path) trees files =
      if not host.makes_directory
      then (files, false)
      else unless_failed
          (delete_expired_files host.source_code_sum trees host.working_directory host.removes
            host.stays (some cache_path) (host.is_readable cache_path) files)
          (save_each cache_path trees)

  -- `Save`
  unfoldable pub save : (stored : Text) → Trees → Files → Files × Bool
  unfolding get_directory save_in
  save stored trees files =
      if host.source_code_sum == []
      then (files, true)
      else save_in (get_directory stored) trees files

  -- `CleanCache`
  unfoldable pub clean_in : Option Text → Files → Files × Bool
  clean_in none files = (files, false)
  clean_in (some cache_path) files =
      if host.removes_directory
      then (remove_directory (λ file. false) cache_path files, true)
      else (remove_directory (host.stays cache_path) cache_path files, false)

  unfoldable pub clean_cache : Files → Files × Bool
  unfolding get_directory clean_in
  clean_cache = clean_in (get_directory [])

  -- `GetRemotePatterns`
  unfoldable pub match_revisions : Trees → List (Text × Text) → List (CacheKey × Option A)
  match_revisions trees [] = []
  match_revisions trees ((branch, revision) ∷ revisions) =
      let key : CacheKey = record { branch = branch; revision = revision } in
      (key, lookup_key key trees) ∷ match_revisions trees revisions

  unfoldable pub match_remote :
      Trees → Option (List (Text × Text)) → Answer (List (CacheKey × Option A))
  unfolding match_revisions
  match_remote trees none = error
  match_remote trees (some revisions) = hit (match_revisions trees revisions)

  unfoldable pub get_remote_patterns :
      Trees → (patterns : List Text) → Answer (List (CacheKey × Option A))
  unfolding match_remote
  get_remote_patterns trees patterns =
      if host.source_code_sum == [] then miss else match_remote trees (host.remote patterns)
