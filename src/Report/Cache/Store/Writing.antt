-- ===== src/Report/Cache/Store/Writing.antt =====
-- The loop of `Save` over the trees.
use medik8s_system_tests.Base.{
  ◌≡◌, ◌≢◌, refl, ap, sym, ◌∙◌, subst, ◌⊎◌, inl, inr, Bool, true, false, List, [], ◌∷◌, some, arith,
  ◌==◌, some, All, Bool-cases, if◌then◌else◌,
}
use medik8s_system_tests.Go.Strings.{text_eq, Text, text_eq}
use medik8s_system_tests.Report.Cache.{CacheKey, key_beq, lookup_key}
use medik8s_system_tests.Report.Cache.Name.{
  generate_cache_file_name, parse_cache_file_name, IsWord,
  parse_cache_file_name-generate_cache_file_name,
}
use medik8s_system_tests.Report.Cache.Stale.{key_beq_iff, key_beq-equal}
use medik8s_system_tests.Report.Cache.Files.{delete_expired_files}
use medik8s_system_tests.Report.Cache.Disk.{File, write_file}
use medik8s_system_tests.Report.Cache.Disk.Laws.{Holds, write_file-Holds, write_file-other}
use medik8s_system_tests.Report.Cache.Store.{
  get_directory, save_in, save, Host, save_cache_file, unless_failed, save_each,
}

-- A key whose file name can be parsed again.
abbrev pub IsNamed : CacheKey → Type 0
IsNamed key = IsWord key.branch × IsWord key.revision

name_apart :
    (sum : Text) (other key : CacheKey)
    → IsWord sum
    → IsNamed other
    → IsNamed key
    → key_beq other key ≡ false
    → generate_cache_file_name sum other ≢ generate_cache_file_name sum key
name_apart sum other key summed (b, r) (b', r') apart same =
    let read = parse_cache_file_name-generate_cache_file_name sum other b r summed in
    let read' = parse_cache_file_name-generate_cache_file_name sum key b' r' summed in
    let equal : ◌≡◌ {A = CacheKey × Text} (other, sum) (key, sum) =
      sym read ∙ ap parse_cache_file_name same ∙ read' in
    let keys : other ≡ key = ap (λ t. t.0) equal in
    let here : key_beq other key ≡ true =
      (key_beq_iff other key).1
        (ap (λ (k : CacheKey). k.branch) keys, ap (λ (k : CacheKey). k.revision) keys) in
    absurd (ground (arith, apart, here))

module _ {A C : Type 0} (host : Host A C) where
  abbrev pub name_of : CacheKey → Text
  name_of key = generate_cache_file_name host.source_code_sum key

  pub unless_failed-true :
      (r : List (File C) × Bool) (next : List (File C) → List (File C) × Bool)
      (saved : List (File C))
      → unless_failed host r next ≡ (saved, true)
      → (r.1 ≡ true) × (next r.0 ≡ (saved, true))
  unfolding unless_failed
  unless_failed-true (files, true) next saved h = (refl, h)
  unless_failed-true (files, false) next saved h = absurd (ground (arith, ap (λ t. t.1) h))

  pub save_cache_file-true :
      (cache_path name : Text) (tree : A) (files : List (File C))
      → (save_cache_file host cache_path name tree files).1 ≡ true
      → (save_cache_file host cache_path name tree files).0
        ≡ write_file cache_path name
            (if host.closes name then host.encode tree else host.torn)
            files
  unfolding save_cache_file
  save_cache_file-true cache_path name tree files = elim (Bool-cases (host.creates name)) [
    | inl e ↦ elim (Bool-cases (host.writes name)) [
      | inl f ↦ rw (e, f) (λ h. refl)
      | inr f ↦ rw (e, f) (λ h. absurd (ground arith))
    ]
    | inr e ↦ rw e (λ h. absurd (ground arith))
  ]

  module _ (cache_path : Text) (key : CacheKey) (tree : A) where
    -- The loop of `Save` leaves the tree of the key in its file.
    pub save_each-Holds :
        (trees : List (CacheKey × A)) (files saved : List (File C))
        → IsWord host.source_code_sum
        → IsNamed key
        → All (λ e. IsNamed e.0) trees
        → All (λ e. key_beq e.0 key ≡ true → e.1 ≡ tree) trees
        → host.closes (name_of key) ≡ true
        → (lookup_key key trees ≡ some tree)
          ⊎ Holds cache_path (name_of key) (host.encode tree) files
        → save_each host cache_path trees files ≡ (saved, true)
        → Holds cache_path (name_of key) (host.encode tree) saved
    unfolding save_each lookup_key
    save_each-Holds [] files saved summed named all_named agree closes (inl found) h =
        absurd (ground arith)
    save_each-Holds [] files saved summed named all_named agree closes (inr held) h =
        subst (λ f. Holds cache_path (name_of key) (host.encode tree) f) (ap (λ t. t.0) h) held
    save_each-Holds ((other, new) ∷ trees) files saved summed named (this, all_named)
          (agree, agrees) closes held h =
        let name = generate_cache_file_name host.source_code_sum other in
        let step = save_cache_file host cache_path name new files in
        let (fine, rest) = unless_failed-true step (save_each host cache_path trees) saved h in
        let wrote = save_cache_file-true cache_path name new files fine in
        let content = if host.closes name then host.encode new else host.torn in
        let goes =
          λ (before : (lookup_key key trees ≡ some tree)
              ⊎ Holds cache_path (name_of key) (host.encode tree) step.0).
            save_each-Holds trees step.0 saved summed named all_named agrees closes before rest in
        elim (Bool-cases (key_beq other key)) [
          | inl e ↦
              let equal = key_beq-equal other key e in
              let same : name ≡ name_of key = ap name_of equal in
              let full : content ≡ host.encode tree =
                let closed : host.closes name ≡ true = ap host.closes same ∙ closes in
                rw closed (ap host.encode (agree e)) in
              let here : Holds cache_path name content step.0 =
                subst (λ f. Holds cache_path name content f) (sym wrote)
                  (write_file-Holds cache_path name content files) in
              goes (
                inr (
                  subst (λ (t : Text × C). Holds cache_path t.0 t.1 step.0) (λ k. (same k, full k))
                    here))
          | inr e ↦
              let skip : (lookup_key key ((other, new) ∷ trees) ≡ some tree)
                  → (lookup_key key trees ≡ some tree) =
                rw e (λ found. found) in
              goes (elim held [
                | inl found ↦ inl (skip found)
                | inr there ↦ inr (
                    subst (λ f. Holds cache_path (name_of key) (host.encode tree) f) (sym wrote)
                      (write_file-other cache_path name (name_of key)
                        (name_apart host.source_code_sum other key summed this named e)
                        (host.encode tree) content files there))
              ])
        ]

  -- A save that returns no error has written all files.
  pub save-save_each :
      (stored cache_path : Text) (trees : List (CacheKey × A)) (files saved : List (File C))
      → (host.source_code_sum == []) ≡ false
      → get_directory host stored ≡ some cache_path
      → save host stored trees files ≡ (saved, true)
      → (kept : List (File C)) × (save_each host cache_path trees kept ≡ (saved, true))
  unfolding save save_in
  save-save_each stored cache_path trees files saved known at =
      rw (at, known)
        (elim (Bool-cases host.makes_directory) [
          | inl e ↦ simp e (λ h.
              let deleted =
                delete_expired_files host.source_code_sum trees host.working_directory host.removes
                  host.stays (some cache_path) (host.is_readable cache_path) files in
              (deleted.0, (unless_failed-true deleted (save_each host cache_path trees) saved h).1))
          | inr e ↦ simp e (λ h. absurd (ground (arith, ap (λ t. t.1) h)))
        ])
