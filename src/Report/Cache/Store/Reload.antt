-- ===== src/Report/Cache/Store/Reload.antt =====
-- What `Save` writes, `Load` reads again.
use medik8s_system_tests.Base.{
  ◌≡◌, refl, ap, sym, ◌∙◌, subst, inl, inr, Bool, true, false, List, [], ◌∷◌, Option, some, arith,
  All, Any, ◌==◌,
}
use medik8s_system_tests.Go.Strings.{Text, text_eq, text_beq_iff}
use medik8s_system_tests.Report.Cache.{CacheKey, key_beq, lookup_key, is_current, update}
use medik8s_system_tests.Report.Cache.Asked.{AnswersFor}
use medik8s_system_tests.Report.Cache.Name.{
  generate_cache_file_name, parse_cache_file_name, IsWord,
  parse_cache_file_name-generate_cache_file_name,
}
use medik8s_system_tests.Report.Cache.Stale.{key_beq_iff, key_beq-equal}
use medik8s_system_tests.Report.Cache.Update.{lookup_key-update_current}
use medik8s_system_tests.Report.Cache.Disk.{File, has_slash, read_dir, is_at}
use medik8s_system_tests.Report.Cache.Disk.Laws.{Holds, is_at-IsAt, read_dir-All, read_dir-Any}
use medik8s_system_tests.Report.Cache.Store.{
  Host, is_own, load_each, update_loaded, load_from, load, save, get_directory,
}
use medik8s_system_tests.Report.Cache.Store.Loading.{IsGood, IsMatch, load_each-lookup_key}
use medik8s_system_tests.Report.Cache.Store.Writing.{
  save-save_each, IsNamed, name_of, save_each-Holds,
}

module _ {A C : Type 0} (host : Host A C) where
  module _ (cache_path : Text) (key : CacheKey) (tree : A) where
    -- The directory holds only files that the tool made: each is regular, and one of this program is
    -- named as the tool names it.
    abbrev pub IsTidy : File C → Type 0
    IsTidy file =
        (file.is_regular ≡ true)
        × ((parse_cache_file_name file.name).1 ≡ host.source_code_sum
            → file.name
              ≡ generate_cache_file_name host.source_code_sum (parse_cache_file_name file.name).0)

    own-sum :
        (file : File C)
        → is_own host file ≡ true
        → (parse_cache_file_name file.name).1 ≡ host.source_code_sum
    unfolding is_own
    own-sum file own =
        (text_beq_iff (parse_cache_file_name file.name).1 host.source_code_sum).0
          (ground (arith, own))

    -- A file of this program whose name is that of the key stands at the key's place.
    own-name :
        (file : File C)
        → IsTidy file
        → is_own host file ≡ true
        → key_beq (parse_cache_file_name file.name).0 key ≡ true
        → file.name ≡ (name_of host key)
    own-name file (regular, own_name) own same =
        own_name (own-sum file own)
        ∙ ap (generate_cache_file_name host.source_code_sum)
            (key_beq-equal (parse_cache_file_name file.name).0 key same)

    Holds-IsGood :
        (files : List (File C))
        → host.decode (host.encode tree) ≡ some tree
        → Holds cache_path (name_of host key) (host.encode tree) files
        → All IsTidy (read_dir cache_path files)
        → All (IsGood host key tree) (read_dir cache_path files)
    Holds-IsGood files decodes (all, any) tidy = All-both (read_dir cache_path files) tidy (
        read_dir-All
          (λ file.
            is_at cache_path (name_of host key) file ≡ true → file.content ≡ host.encode tree)
          cache_path files all)
      where
        All-both :
            (entries : List (File C))
            → All IsTidy entries
            → All
                (λ file.
                  (is_at cache_path (name_of host key) file ≡ true
                    → file.content ≡ host.encode tree)
                  × (file.directory ≡ cache_path))
                entries
            → All (IsGood host key tree) entries
        All-both [] tidy held = tt
        All-both (file ∷ entries) (this, tidy) ((holds, inside), held) = (
          (λ own same.
              ap host.decode (
                holds (
                  (is_at-IsAt cache_path (name_of host key) file).1
                    (inside, own-name file this own same)))
              ∙ decodes),
          All-both entries tidy held,
        )

    -- The file of the key is one that `Load` reads under the key.
    at-IsMatch :
        (file : File C)
        → IsWord host.source_code_sum
        → IsNamed key
        → IsTidy file
        → is_at cache_path (name_of host key) file ≡ true
        → IsMatch host key tree file
    unfolding is_own
    at-IsMatch file summed (b, r) (regular, own_name) here =
        let name = ((is_at-IsAt cache_path (name_of host key) file).0 here).1 in
        let read : parse_cache_file_name file.name ≡ (key, host.source_code_sum) =
          ap parse_cache_file_name name
          ∙ parse_cache_file_name-generate_cache_file_name host.source_code_sum key b r summed in
        let sum_same : ((parse_cache_file_name file.name).1 == host.source_code_sum) ≡ true =
          (text_beq_iff (parse_cache_file_name file.name).1 host.source_code_sum).1
            (ap (λ t. t.1) read) in
        (
          ground (arith, regular, sum_same),
          ap (λ t. key_beq t.0 key) read ∙ (key_beq_iff key key).1 (refl, refl),
        )

    Any-IsMatch :
        (entries : List (File C))
        → IsWord host.source_code_sum
        → IsNamed key
        → All IsTidy entries
        → Any (λ file. is_at cache_path (name_of host key) file ≡ true) entries
        → Any (IsMatch host key tree) entries
    Any-IsMatch [] summed named tidy any = elim any [ ]
    Any-IsMatch (file ∷ entries) summed named (this, tidy) (inl here) =
        inl (at-IsMatch file summed named this here)
    Any-IsMatch (file ∷ entries) summed named (this, tidy) (inr later) =
        inr (Any-IsMatch entries summed named tidy later)

  update_loaded-true :
      (r : List (CacheKey × A) × Bool) (loaded : List (CacheKey × A))
      → update_loaded host r ≡ (loaded, true)
      → (r.1 ≡ true) × (update host.source_code_sum host.remote r.0 ≡ (loaded, true))
  unfolding update_loaded
  update_loaded-true (trees, true) loaded h = (refl, h)
  update_loaded-true (trees, false) loaded h = absurd (ground (arith, ap (λ t. t.1) h))

  IsWord-text : (text : Text) → IsWord text → (text == []) ≡ false
  IsWord-text [] is = elim is [ ]
  IsWord-text (c ∷ text) is = refl

  load-load_each :
      (stored cache_path : Text) (files : List (File C)) (trees loaded : List (CacheKey × A))
      → IsWord host.source_code_sum
      → get_directory host stored ≡ some cache_path
      → host.is_readable cache_path ≡ true
      → load host stored files trees ≡ (loaded, true)
      → ((load_each host (read_dir cache_path files) trees).1 ≡ true)
        × (update host.source_code_sum host.remote
              (load_each host (read_dir cache_path files) trees).0
            ≡ (loaded, true))
  unfolding load load_from
  load-load_each stored cache_path files trees loaded summed at readable =
      rw (at, IsWord-text host.source_code_sum summed, readable)
        (update_loaded-true (load_each host (read_dir cache_path files) trees) loaded)

  -- The tree of a key is looked up again in what `Load` returns after `Save`, when both return no error,
  -- the branches, the revisions and the checksum are not empty and hold no white space, the key has one
  -- tree, a tree is decoded from what it is encoded to, the file's name holds no slash and the end of the
  -- file is written when it is closed, the cache directory is known and can be read and holds only
  -- regular files, of which those of this program are named by `generateCacheFileName`, and the key's
  -- revision is the one in the repository, which `git ls-remote` tells of each branch that it is
  -- asked for.
  pub load-save :
      (stored cache_path : Text) (key : CacheKey) (tree : A) (trees loaded : List (CacheKey × A))
      (files saved : List (File C)) (repository : Text → Option Text)
      → IsWord host.source_code_sum
      → IsNamed key
      → All (λ e. IsNamed e.0) trees
      → All (λ e. key_beq e.0 key ≡ true → e.1 ≡ tree) trees
      → get_directory host stored ≡ some cache_path
      → host.is_readable cache_path ≡ true
      → host.decode (host.encode tree) ≡ some tree
      → has_slash (name_of host key) ≡ false
      → host.closes (name_of host key) ≡ true
      → AnswersFor repository host.remote
      → is_current repository key.branch key.revision ≡ true
      → lookup_key key trees ≡ some tree
      → save host stored trees files ≡ (saved, true)
      → All (IsTidy cache_path key tree) (read_dir cache_path saved)
      → load host stored saved [] ≡ (loaded, true)
      → lookup_key key loaded ≡ some tree
  load-save stored cache_path key tree trees loaded files saved repository summed named all_named
        agree at readable decodes flat closes answers current found saves tidy loads =
      let (kept, wrote) =
        save-save_each host stored cache_path trees files saved
          (IsWord-text host.source_code_sum summed) at saves in
      let (all, any) =
        save_each-Holds host cache_path key tree trees kept saved summed named all_named agree
          closes (inl found) wrote in
      let (fine, updated) =
        load-load_each stored cache_path saved [] loaded summed at readable loads in
      let entries = read_dir cache_path saved in
      let listed = read_dir-Any cache_path (name_of host key) saved flat any in
      let held : lookup_key key (load_each host entries []).0 ≡ some tree =
        load_each-lookup_key host key tree entries [] (load_each host entries []).0
          (Holds-IsGood cache_path key tree saved decodes (all, any) tidy)
          (inl (Any-IsMatch cache_path key tree entries summed named tidy listed))
          (λ k. ((load_each host entries []).0, fine k)) in
      ap (λ t. lookup_key key t.0) (sym updated)
      ∙ lookup_key-update_current host.source_code_sum host.remote repository key
          (load_each host entries []).0 tree (λ none'. absurd (subst IsWord none' summed)) answers
          current (ap (λ t. t.1) updated) held
