-- ===== src/Report/Cache/Files.antt =====
-- `deleteExpiredFiles`.
use medik8s_system_tests.Base.{
  ◌≡◌, refl, ◌∙◌, inl, inr, Bool, true, false, not, ◌&&◌, List, [], ◌∷◌, ◌++◌, Option, none, some,
  arith, Bool-cases, if◌then◌else◌, ◌==◌,
}
use medik8s_system_tests.Go.Strings.{Text, text_eq, has_prefix}
use medik8s_system_tests.Report.Cache.{CacheKey, lookup_key}
use medik8s_system_tests.Report.Cache.Disk.{
  File, has_slash, with_slash, is_under, read_dir, remove_all,
}
use medik8s_system_tests.Report.Cache.Disk.Laws.{in_directory}
use medik8s_system_tests.Report.Cache.Disk.Paths.{is_under-apart}
use medik8s_system_tests.Report.Cache.Name.{parse_cache_file_name}

abbrev pub is_found {ℓ} : {A : Type ℓ} → Option A → Bool
is_found none = false
is_found (some a) = true

module _ {A C : Type 0} (source_code_sum : Text) (trees : List (CacheKey × A)) where
  -- A regular file that is not that of a cached tree.
  unfoldable pub is_expired : File C → Bool
  is_expired file =
      let (key, sum) = parse_cache_file_name file.name in
      file.is_regular && not (is_found (lookup_key key trees) && sum == source_code_sum)

  module _ (working_directory : Text) (removes : Text → Bool) (stays : Text → File C → Bool) where
    -- The loop over the entries of the cache directory; the second result is whether it returns
    -- without an error. A removal that fails may leave a part of what it should remove.
    unfoldable pub delete_each : (entries files : List (File C)) → List (File C) × Bool
    unfolding is_expired remove_all
    delete_each [] files = (files, true)
    delete_each (entry ∷ entries) files =
        let kept = delete_each entries files in
        let deleted =
          delete_each entries (remove_all (λ file. false) working_directory entry.name files) in
        let failed = remove_all (stays entry.name) working_directory entry.name files in
        if is_expired entry then if removes entry.name then deleted else (failed, false) else kept

    unfoldable pub delete_expired_files :
        (directory : Option Text) → (readable : Bool) → List (File C) → List (File C) × Bool
    unfolding delete_each read_dir
    delete_expired_files none readable files = (files, false)
    delete_expired_files (some cache_path) readable files =
        let deleted = delete_each (read_dir cache_path files) files in
        if readable then deleted else (files, false)

    read_dir-remove_all :
        (stays' : File C → Bool) (directory name : Text) (files : List (File C))
        → has_prefix (with_slash directory) (with_slash working_directory) ≡ false
        → read_dir directory (remove_all stays' working_directory name files)
          ≡ read_dir directory files
    unfolding read_dir remove_all
    read_dir-remove_all stays' directory name [] apart = refl
    read_dir-remove_all stays' directory name (file ∷ files) apart =
        let rest = read_dir-remove_all stays' directory name files apart in
        let path = with_slash working_directory ++ name in
        elim (Bool-cases (is_under path file && not (stays' file))) [
          | inl e ↦
              let elsewhere : (file.directory == directory && not (has_slash file.name)) ≡ false =
                elim (Bool-cases (file.directory == directory && not (has_slash file.name))) [
                  | inl t ↦
                      let (at, flat) = in_directory directory file t in
                      let kept =
                        is_under-apart working_directory name directory file apart at flat in
                      absurd (ground (arith, e, kept))
                  | inr t ↦ t
                ] in
              rw e (rw elsewhere rest)
          | inr e ↦ rw e (rw rest refl)
        ]

    delete_each-read_dir :
        (directory : Text) (entries files : List (File C))
        → has_prefix (with_slash directory) (with_slash working_directory) ≡ false
        → read_dir directory (delete_each entries files).0 ≡ read_dir directory files
    unfolding delete_each
    delete_each-read_dir directory [] files apart = refl
    delete_each-read_dir directory (entry ∷ entries) files apart =
        elim (Bool-cases (is_expired entry)) [
          | inl e ↦ elim (Bool-cases (removes entry.name)) [
            | inl t ↦
                rw (e, t)
                  (delete_each-read_dir directory entries
                      (remove_all (λ file. false) working_directory entry.name files) apart
                    ∙ read_dir-remove_all (λ file. false) directory entry.name files apart)
            | inr t ↦
                rw (e, t) (read_dir-remove_all (stays entry.name) directory entry.name files apart)
          ]
          | inr e ↦ rw e (delete_each-read_dir directory entries files apart)
        ]

    -- When the cache directory is neither the working directory nor below it, `deleteExpiredFiles` leaves
    -- every entry of the cache directory in place, expired files included, whether it ends in an error
    -- or not.
    pub read_dir-delete_expired_files :
        (cache_path : Text) (readable : Bool) (files : List (File C))
        → has_prefix (with_slash cache_path) (with_slash working_directory) ≡ false
        → read_dir cache_path (delete_expired_files (some cache_path) readable files).0
          ≡ read_dir cache_path files
    unfolding delete_expired_files
    read_dir-delete_expired_files cache_path true files apart =
        delete_each-read_dir cache_path (read_dir cache_path files) files apart
    read_dir-delete_expired_files cache_path false files apart = refl
