-- ===== src/Report/Cache/Store/Loading.antt =====
-- The loop of `Load` over the files of the cache directory.
use medik8s_system_tests.Base.{
  ◌≡◌, refl, ap, sym, ◌∙◌, ◌⊎◌, inl, inr, Bool, true, List, [], ◌∷◌, Option, none, some, arith, All,
  Any, Bool-cases,
}
use medik8s_system_tests.Go.Strings.{text_eq}
use medik8s_system_tests.Report.Cache.{CacheKey, key_beq, lookup_key}
use medik8s_system_tests.Report.Cache.Name.{parse_cache_file_name}
use medik8s_system_tests.Report.Cache.Disk.{File}
use medik8s_system_tests.Report.Cache.Get.{
  set_tree, lookup_key-set_tree_same, lookup_key-set_tree_other,
}
use medik8s_system_tests.Report.Cache.Store.{Host, is_own, add_loaded, load_cache_file, load_each}

module _ {A C : Type 0} (host : Host A C) (key : CacheKey) (tree : A) where
  -- A file of this program whose name is that of the key holds the tree.
  abbrev pub IsGood : File C → Type 0
  IsGood file =
      is_own host file ≡ true
      → key_beq (parse_cache_file_name file.name).0 key ≡ true
      → host.decode file.content ≡ some tree

  abbrev pub IsMatch : File C → Type 0
  IsMatch file =
      (is_own host file ≡ true) × (key_beq (parse_cache_file_name file.name).0 key ≡ true)

  -- One file that is loaded: the key is held after it, if it is the file's, or was held before.
  add_loaded-lookup_key :
      (other : CacheKey) (decoded : Option A)
      (next : List (CacheKey × A) → List (CacheKey × A) × Bool) (trees loaded : List (CacheKey × A))
      (Later : Type 0)
      → ((new : A) → decoded ≡ some new → key_beq other key ≡ true → decoded ≡ some tree)
      → (key_beq other key ≡ true) ⊎ (Later ⊎ (lookup_key key trees ≡ some tree))
      → ((kept : List (CacheKey × A))
          → Later ⊎ (lookup_key key kept ≡ some tree)
          → next kept ≡ (loaded, true)
          → lookup_key key loaded ≡ some tree)
      → add_loaded host other decoded next trees ≡ (loaded, true)
      → lookup_key key loaded ≡ some tree
  unfolding add_loaded
  add_loaded-lookup_key other none next trees loaded Later good held goes h =
      absurd (ground (arith, ap (λ t. t.1) h))
  add_loaded-lookup_key other (some new) next trees loaded Later good held goes h =
      elim (Bool-cases (key_beq other key)) [
        | inl e ↦
            goes (set_tree other new trees)
              (inr (lookup_key-set_tree_same key other new trees e ∙ good new refl e)) h
        | inr e ↦
            let kept = lookup_key-set_tree_other key other new trees e in
            goes (set_tree other new trees)
              (elim held [
                | inl same ↦ absurd (ground (arith, e, same))
                | inr (inl later) ↦ inl later
                | inr (inr before) ↦ inr (kept ∙ before)
              ])
              h
      ]

  -- What is read is what is decoded.
  load_cache_file-decode :
      (entry : File C) (new : A)
      → load_cache_file host entry ≡ some new
      → load_cache_file host entry ≡ host.decode entry.content
  unfolding load_cache_file
  load_cache_file-decode entry new = elim (Bool-cases (host.opens entry.name)) [
    | inl e ↦ elim (Bool-cases host.decompresses) [
      | inl d ↦ simp (e, d) (λ h. refl)
      | inr d ↦ simp (e, d) (λ h. absurd (ground (arith, h)))
    ]
    | inr e ↦ simp e (λ h. absurd (ground (arith, h)))
  ]

  pub load_each-lookup_key :
      (entries : List (File C)) (trees loaded : List (CacheKey × A))
      → All IsGood entries
      → Any IsMatch entries ⊎ (lookup_key key trees ≡ some tree)
      → load_each host entries trees ≡ (loaded, true)
      → lookup_key key loaded ≡ some tree
  unfolding load_each
  load_each-lookup_key [] trees loaded good (inl found) = elim found [ ]
  load_each-lookup_key [] trees loaded good (inr held) =
      λ h. ap (λ t. lookup_key key t.0) (sym h) ∙ held
  load_each-lookup_key (entry ∷ entries) trees loaded (good, later) held =
      let goes = λ (kept : List (CacheKey × A)). load_each-lookup_key entries kept loaded later in
      elim (Bool-cases (is_own host entry)) [
        | inl e ↦ rw e (
            add_loaded-lookup_key (parse_cache_file_name entry.name).0 (load_cache_file host entry)
              (load_each host entries) trees loaded (Any IsMatch entries)
              (λ new loads same. load_cache_file-decode entry new loads ∙ good e same)
              (elim held [
                | inl (inl (own, same)) ↦ inl same
                | inl (inr found) ↦ inr (inl found)
                | inr before ↦ inr (inr before)
              ])
              goes)
        | inr e ↦ rw e (
            goes trees (elim held [
              | inl (inl (own, same)) ↦ absurd (ground (arith, e, own))
              | inl (inr found) ↦ inl found
              | inr before ↦ inr before
            ]))
      ]
