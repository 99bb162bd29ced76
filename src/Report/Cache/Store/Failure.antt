-- ===== src/Report/Cache/Store/Failure.antt =====
-- When `Save` returns no error.
use medik8s_system_tests.Base.{
  ◌≡◌, ◌↔◌, refl, subst, inl, inr, Bool, true, false, List, [], ◌∷◌, some, arith, All, Bool-cases,
  Option-cases, ◌==◌,
}
use medik8s_system_tests.Go.Strings.{Text, text_eq}
use medik8s_system_tests.Report.Cache.{CacheKey}
use medik8s_system_tests.Report.Cache.Name.{generate_cache_file_name}
use medik8s_system_tests.Report.Cache.Disk.{File, read_dir, remove_all}
use medik8s_system_tests.Report.Cache.Files.{is_expired, delete_each, delete_expired_files}
use medik8s_system_tests.Report.Cache.Store.{
  Host, save_cache_file, unless_failed, save_each, save_in, save, get_directory,
}
use medik8s_system_tests.Report.Cache.Store.Writing.{name_of}

module _ {A C : Type 0} (host : Host A C) where
  -- Each expired file of a listing can be removed, from the working directory.
  abbrev pub CanRemove : List (CacheKey × A) → List (File C) → Type 0
  CanRemove trees entries =
      All
        (λ entry.
          is_expired host.source_code_sum trees entry ≡ true → host.removes entry.name ≡ true)
        entries

  -- The file of each tree can be created and written.
  abbrev pub CanWrite : List (CacheKey × A) → Type 0
  CanWrite trees =
      All (λ e. (host.creates (name_of host e.0) ≡ true) × (host.writes (name_of host e.0) ≡ true))
        trees

  -- What a call of `Save` needs of the machine.
  abbrev pub CanSave : (stored : Text) → List (CacheKey × A) → List (File C) → Type 0
  CanSave stored trees files =
      (cache_path : Text) × (get_directory host stored ≡ some cache_path)
      × (host.makes_directory ≡ true)
      × (host.is_readable cache_path ≡ true)
      × CanRemove trees (read_dir cache_path files)
      × CanWrite trees

  delete_each-CanRemove :
      (trees : List (CacheKey × A)) (entries files : List (File C))
      → ((delete_each host.source_code_sum trees host.working_directory host.removes host.stays
            entries files).1
          ≡ true)
        ↔ CanRemove trees entries
  unfolding delete_each
  delete_each-CanRemove trees [] files = ((λ h. tt), (λ h. refl))
  delete_each-CanRemove trees (entry ∷ entries) files =
      elim (Bool-cases (is_expired host.source_code_sum trees entry)) [
        | inl e ↦ elim (Bool-cases (host.removes entry.name)) [
          | inl t ↦
              let (to, from) =
                delete_each-CanRemove trees entries
                  (remove_all (λ file. false) host.working_directory entry.name files) in
              rw (e, t) ((λ h. ((λ expired. refl), to h)), (λ h. from h.1))
          | inr t ↦
              rw (e, t)
                ((λ h. absurd (ground (arith, h))), (λ h. absurd (ground (arith, h.0 refl))))
        ]
        | inr e ↦
            let (to, from) = delete_each-CanRemove trees entries files in
            rw e ((λ h. ((λ expired. absurd (ground (arith, expired))), to h)), (λ h. from h.1))
      ]

  save_each-CanWrite :
      (cache_path : Text) (trees : List (CacheKey × A)) (files : List (File C))
      → ((save_each host cache_path trees files).1 ≡ true) ↔ CanWrite trees
  unfolding save_each save_cache_file unless_failed
  save_each-CanWrite cache_path [] files = ((λ h. tt), (λ h. refl))
  save_each-CanWrite cache_path ((key, tree) ∷ trees) files =
      let name = generate_cache_file_name host.source_code_sum key in
      elim (Bool-cases (host.creates name)) [
        | inl e ↦ elim (Bool-cases (host.writes name)) [
          | inl t ↦
              let step = save_cache_file host cache_path name tree files in
              let (to, from) = save_each-CanWrite cache_path trees step.0 in
              let go : ((save_each host cache_path ((key, tree) ∷ trees) files).1 ≡ true)
                  ↔ ((save_each host cache_path trees step.0).1 ≡ true) =
                rw (e, t) ((λ h. h), (λ h. h)) in
              ((λ h. ((e, t), to (go.0 h))), (λ h. go.1 (from h.1)))
          | inr t ↦
              ((λ h. absurd (ground (arith, e, t, h))), (λ h. absurd (ground (arith, t, h.0.1))))
        ]
        | inr e ↦ ((λ h. absurd (ground (arith, e, h))), (λ h. absurd (ground (arith, e, h.0.0))))
      ]

  unless_failed_iff :
      (r : List (File C) × Bool) (next : List (File C) → List (File C) × Bool)
      → ((unless_failed host r next).1 ≡ true) ↔ ((r.1 ≡ true) × ((next r.0).1 ≡ true))
  unfolding unless_failed
  unless_failed_iff (files, true) next = ((λ h. (refl, h)), (λ h. h.1))
  unless_failed_iff (files, false) next =
      ((λ h. absurd (ground (arith, h))), (λ h. absurd (ground (arith, h.0))))

  delete_expired_files-CanRemove :
      (cache_path : Text) (trees : List (CacheKey × A)) (files : List (File C)) (readable : Bool)
      → ((delete_expired_files host.source_code_sum trees host.working_directory host.removes
            host.stays
            (some cache_path)
            readable
            files).1
          ≡ true)
        ↔ ((readable ≡ true) × CanRemove trees (read_dir cache_path files))
  unfolding delete_expired_files
  delete_expired_files-CanRemove cache_path trees files true =
      let (to, from) = delete_each-CanRemove trees (read_dir cache_path files) files in
      ((λ h. (refl, to h)), (λ h. from h.1))
  delete_expired_files-CanRemove cache_path trees files false =
      ((λ h. absurd (ground (arith, h))), (λ h. absurd (ground (arith, h.0))))

  save_in-CanSave :
      (cache_path : Text) (trees : List (CacheKey × A)) (files : List (File C))
      → ((save_in host (some cache_path) trees files).1 ≡ true) ↔ (
          (host.makes_directory ≡ true)
          × (host.is_readable cache_path ≡ true)
          × CanRemove trees (read_dir cache_path files)
          × CanWrite trees)
  unfolding save_in
  save_in-CanSave cache_path trees files =
      let readable = host.is_readable cache_path in
      let deleted =
        delete_expired_files host.source_code_sum trees host.working_directory host.removes
          host.stays (some cache_path) readable files in
      let (both, back) = unless_failed_iff deleted (save_each host cache_path trees) in
      let (removed, remove) = delete_expired_files-CanRemove cache_path trees files readable in
      let (written, write) = save_each-CanWrite cache_path trees deleted.0 in
      elim (Bool-cases host.makes_directory) [
        | inl e ↦ rw e (
          (λ h.
              let (fine, rest) = both h in
              let (read, clear) = removed fine in (refl, read, clear, written rest)),
          (λ h. back (remove (h.1, h.2), write h.3)),
        )
        | inr e ↦ rw e ((λ h. absurd (ground (arith, h))), (λ h. absurd (ground (arith, h.0))))
      ]

  -- When the checksum of the source code is known, `Save` returns no error exactly when the cache directory
  -- is known, can be made and can be read, each expired file of it can be removed by its name from the
  -- working directory, and the file of each tree can be created and written.
  pub save-CanSave :
      (stored : Text) (trees : List (CacheKey × A)) (files : List (File C))
      → (host.source_code_sum == []) ≡ false
      → ((save host stored trees files).1 ≡ true) ↔ CanSave stored trees files
  unfolding save
  save-CanSave stored trees files known = elim (Option-cases (get_directory host stored)) [
    | inl e ↦
        rw (known, e)
          (
            (λ h. absurd (unfold save_in in ground (arith, h))),
            (λ (path, at, made, read, clear, write). absurd (cc (at))),
          )
    | inr (cache_path, e) ↦
        let (to, from) = save_in-CanSave cache_path trees files in
        rw (known, e)
          (
            (λ h.
                let (made, read, clear, write) = to h in
                (cache_path, refl, made, read, clear, write)),
            (λ (path, at, made, read, clear, write). from (
                subst
                  (λ (p : Text).
                    (host.makes_directory ≡ true)
                    × (host.is_readable p ≡ true)
                    × CanRemove trees (read_dir p files)
                    × CanWrite trees)
                  (some_path path cache_path at) (made, read, clear, write))),
          )
  ]
    where
      some_path : (path cache_path : Text) → some cache_path ≡ some path → path ≡ cache_path
      some_path path cache_path at = cc
