-- ===== src/Report/Cache/Store/Clean.antt =====
-- `NewCacheContext` after `CleanCache`.
use medik8s_system_tests.Base.{
  ◌≡◌, refl, ap, sym, ◌∙◌, subst, inl, inr, Bool, true, false, not, ◌&&◌, List, [], ◌∷◌, Option,
  none, some, arith, Bool-cases, Option-cases, ◌==◌, if◌then◌else◌,
}
use medik8s_system_tests.Go.Strings.{Text, text_eq, has_prefix}
use medik8s_system_tests.Report.Cache.{CacheKey, update, drop_stale, cached_revisions}
use medik8s_system_tests.Report.Cache.Disk.{
  File, has_slash, with_slash, path_of, read_dir, remove_directory,
}
use medik8s_system_tests.Report.Cache.Disk.Laws.{in_directory}
use medik8s_system_tests.Report.Cache.Disk.Paths.{has_prefix-append}
use medik8s_system_tests.Report.Cache.Store.{
  Host, load_each, update_loaded, load_from, load, get_directory, clean_cache, clean_in,
  new_cache_context, or_failed,
}

remove_directory-read_dir :
    {C : Type 0} (directory : Text) (files : List (File C))
    → read_dir directory (remove_directory (λ file. false) directory files) ≡ []
unfolding read_dir remove_directory
remove_directory-read_dir directory [] = refl
remove_directory-read_dir directory (file ∷ files) =
    let rest = remove_directory-read_dir directory files in
    elim (Bool-cases (has_prefix (path_of file) (with_slash directory))) [
      | inl e ↦ rw e rest
      | inr e ↦
          let elsewhere : (file.directory == directory && not (has_slash file.name)) ≡ false =
            elim (Bool-cases (file.directory == directory && not (has_slash file.name))) [
              | inl t ↦
                  let below : has_prefix (path_of file) (with_slash directory) ≡ true =
                    ap (λ t. has_prefix (path_of file) (with_slash t))
                      (sym (in_directory directory file t).0)
                    ∙ has_prefix-append (with_slash file.directory) file.name in
                  absurd (ground (arith, e, below))
              | inr t ↦ t
            ] in
          rw e (rw elsewhere rest)
    ]

module _ {A C : Type 0} (host : Host A C) where
  -- The cache that starts with nothing in its directory.
  load_from-empty :
      (cache_path : Text) (files : List (File C))
      → read_dir cache_path files ≡ []
      → (load_from host (some cache_path) files []).0 ≡ []
  unfolding load_from load_each update_loaded update cached_revisions drop_stale
  load_from-empty cache_path files empty = elim (Bool-cases (host.source_code_sum == [])) [
    | inl e ↦ rw e refl
    | inr e ↦ elim (Bool-cases (host.is_readable cache_path)) [
      | inl t ↦
          simp (e, t, empty)
            (elim (Option-cases (host.remote [])) [
              | inl none' ↦ rw none' refl
              | inr (latest, answers) ↦ rw answers refl
            ])
      | inr t ↦ simp (e, t) refl
    ]
  ]

  or_failed-some :
      (r : List (CacheKey × A) × Bool) (trees : List (CacheKey × A))
      → or_failed host r ≡ some trees
      → r.0 ≡ trees
  unfolding or_failed
  or_failed-some (held, true) trees h = ground (arith, h)
  or_failed-some (held, false) trees h = absurd (ground (arith, h))

  clean_in-load_from :
      (directory : Option Text) (files cleaned : List (File C)) (trees : List (CacheKey × A))
      → clean_in host directory files ≡ (cleaned, true)
      → or_failed host (load_from host directory cleaned []) ≡ some trees
      → trees ≡ []
  unfolding clean_in
  clean_in-load_from none files cleaned trees clean starts =
      absurd (ground (arith, ap (λ t. t.1) clean))
  clean_in-load_from (some cache_path) files cleaned trees clean starts =
      elim (Bool-cases host.removes_directory) [
        | inl e ↦
            let removed : ◌≡◌ {A = List (File C) × Bool}
                (remove_directory (λ file. false) cache_path files, true) (cleaned, true) =
              subst
                (λ b.
                  ◌≡◌ {A = List (File C) × Bool}
                    (if b
                      then (remove_directory (λ file. false) cache_path files, true)
                      else (remove_directory (host.stays cache_path) cache_path files, false))
                    (cleaned, true))
                e clean in
            let empty : read_dir cache_path cleaned ≡ [] =
              ap (λ t. read_dir cache_path t.0) (sym removed)
              ∙ remove_directory-read_dir cache_path files in
            sym (or_failed-some (load_from host (some cache_path) cleaned []) trees starts)
            ∙ load_from-empty cache_path cleaned empty
        | inr e ↦
            let failed : ◌≡◌ {A = List (File C) × Bool}
                (remove_directory (host.stays cache_path) cache_path files, false) (cleaned, true) =
              subst
                (λ b.
                  ◌≡◌ {A = List (File C) × Bool}
                    (if b
                      then (remove_directory (λ file. false) cache_path files, true)
                      else (remove_directory (host.stays cache_path) cache_path files, false))
                    (cleaned, true))
                e clean in
            absurd (ground (arith, ap (λ t. t.1) failed))
      ]

  -- After `CleanCache` returns no error, a cache that `NewCacheContext` returns holds no trees.
  pub new_cache_context-clean_cache :
      (files cleaned : List (File C)) (trees : List (CacheKey × A))
      → clean_cache host files ≡ (cleaned, true)
      → new_cache_context host cleaned ≡ some trees
      → trees ≡ []
  unfolding clean_cache new_cache_context load
  new_cache_context-clean_cache = clean_in-load_from (get_directory host [])
