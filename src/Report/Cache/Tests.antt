-- ===== src/Report/Cache/Tests.antt =====
-- Runs of the cache on concrete branches.
use medik8s_system_tests.Base.{
  ℕ, ◌≡◌, refl, sym, ap, ◌∙◌, inl, inr, true, false, List, [], ◌∷◌, none, some, arith, Any,
  Bool-cases, Option-cases, if◌then◌else◌, ◌==◌,
}
use medik8s_system_tests.Go.Strings.{Text, codes, text_eq, text_beq_iff, is_space, has_prefix}
use medik8s_system_tests.Report.Cache.{
  CacheKey, lookup_key, delete_key, set_revision, cached_revisions, is_current, drop_stale, update,
  find_revision,
}
use medik8s_system_tests.Report.Cache.Name.{
  generate_cache_file_name, parse_cache_file_name, parse_cache_file_name-generate_cache_file_name,
}
use medik8s_system_tests.Report.Cache.Asked.{AnswersFor}
use medik8s_system_tests.Report.Cache.Update.{lookup_key-update}
use medik8s_system_tests.Report.Cache.Disk.{File, with_slash, read_dir}
use medik8s_system_tests.Report.Cache.Files.{delete_expired_files, read_dir-delete_expired_files}
use medik8s_system_tests.Report.Cache.Get.{
  Git, hit, get, get_key_from_path, get_or_create, get-get_or_create,
}

abbrev key_of : Text → Text → CacheKey
key_of branch revision = record { branch = branch; revision = revision }

abbrev main_key : CacheKey
main_key = key_of (codes "main") (codes "r1")

abbrev trees : List (CacheKey × ℕ)
trees = (main_key, 7) ∷ (key_of (codes "next") (codes "r2"), 8) ∷ []

parse_cache_file_name-generate_cache_file_name_example :
    parse_cache_file_name (generate_cache_file_name (codes "f00") main_key)
    ≡ (main_key, codes "f00")
parse_cache_file_name-generate_cache_file_name_example =
    parse_cache_file_name-generate_cache_file_name (codes "f00") main_key
      (unfold is_space in (refl, (refl, (refl, (refl, tt)))))
      (unfold is_space in (refl, (refl, tt))) (unfold is_space in (refl, (refl, (refl, tt))))

-- The remote repository, at a newer revision of `next`.
abbrev repository : List (Text × Text)
repository = (codes "main", codes "r1") ∷ (codes "next", codes "r3") ∷ []

-- What is printed of the branches that are asked for.
ls_remote : List Text → List (Text × Text)
ls_remote [] = []
ls_remote (branch ∷ branches) = elim (find_revision repository branch) [
  | none ↦ ls_remote branches
  | some revision ↦ (branch, revision) ∷ ls_remote branches
]

ls_remote-other :
    (other branch : Text) (branches : List Text)
    → (other == branch) ≡ false
    → find_revision (ls_remote (other ∷ branches)) branch
      ≡ find_revision (ls_remote branches) branch
unfolding find_revision ls_remote
ls_remote-other other branch branches e = elim (Option-cases (find_revision repository other)) [
  | inl f ↦ rw (f, ls_remote) refl
  | inr (revision, f) ↦ rw (f, ls_remote) (rw e refl)
]

ls_remote-none :
    (branch : Text) (branches : List Text)
    → find_revision repository branch ≡ none
    → find_revision (ls_remote branches) branch ≡ none
unfolding find_revision ls_remote
ls_remote-none branch [] e = refl
ls_remote-none branch (other ∷ branches) e = elim (Bool-cases (other == branch)) [
  | inl t ↦
      let same : find_revision repository other ≡ none =
        ap (find_revision repository) ((text_beq_iff other branch).0 t) ∙ e in
      rw (same, ls_remote) (ls_remote-none branch branches e)
  | inr t ↦ ls_remote-other other branch branches t ∙ ls_remote-none branch branches e
]

ls_remote-first :
    (other branch : Text) (branches : List Text)
    → (other == branch) ≡ true
    → find_revision (ls_remote (other ∷ branches)) branch ≡ find_revision repository branch
unfolding find_revision ls_remote
ls_remote-first other branch branches t =
    let same : find_revision repository other ≡ find_revision repository branch =
      ap (find_revision repository) ((text_beq_iff other branch).0 t) in
    elim (Option-cases (find_revision repository other)) [
      | inl e ↦ rw (e, ls_remote) (ls_remote-none branch branches (sym same ∙ e)) ∙ sym e ∙ same
      | inr (revision, e) ↦ rw (e, ls_remote) (rw t (sym e ∙ same))
    ]

ls_remote-find_revision :
    (branches : List Text) (branch : Text)
    → Any (λ other. other ≡ branch) branches
    → find_revision (ls_remote branches) branch ≡ find_revision repository branch
ls_remote-find_revision [] branch any = elim any [ ]
ls_remote-find_revision (other ∷ branches) branch (inl here) =
    ls_remote-first other branch branches ((text_beq_iff other branch).1 here)
ls_remote-find_revision (other ∷ branches) branch (inr later) =
    elim (Bool-cases (other == branch)) [
      | inl t ↦ ls_remote-first other branch branches t
      | inr t ↦
          ls_remote-other other branch branches t ∙ ls_remote-find_revision branches branch later
    ]

ls_remote-AnswersFor : AnswersFor (find_revision repository) (λ branches. some (ls_remote branches))
ls_remote-AnswersFor branches latest branch answered any =
    let same : ls_remote branches ≡ latest = cc in
    sym (ap (λ t. find_revision t branch) same) ∙ ls_remote-find_revision branches branch any

lookup_key-update_example :
    lookup_key main_key (update (codes "f00") (λ branches. some (ls_remote branches)) trees).0 ≡ (
      if is_current (find_revision repository) (codes "main") (codes "r1")
      then lookup_key main_key trees
      else none)
lookup_key-update_example =
    lookup_key-update (codes "f00") (λ branches. some (ls_remote branches))
      (find_revision repository) main_key trees (λ e. absurd (ground arith)) ls_remote-AnswersFor
      ((λ e. refl), ((λ e. absurd (ground arith)), tt)) (unfold update in refl)

-- With two revisions of a branch, the stale one stays when it is met first.
stale_stays :
    lookup_key {A = ℕ} main_key
      (update
        (codes "f00")
        (λ branches. some ((codes "main", codes "r2") ∷ []))
        ((main_key, 7) ∷ (key_of (codes "main") (codes "r2"), 8) ∷ [])).0
    ≡ some 7
unfolding lookup_key update set_revision cached_revisions is_current drop_stale delete_key
    find_revision
stale_stays = refl

abbrev expired : List (File ℕ)
expired =
    record { directory = codes "/cache"; name = codes "old"; is_regular = true; content = 1 } ∷ []

read_dir-delete_expired_files_example :
    read_dir
      (codes "/cache")
      (delete_expired_files
        (codes "f00")
        trees
        (codes "/work")
        (λ name. true)
        (λ name file. false)
        (some (codes "/cache"))
        true
        expired).0
    ≡ read_dir (codes "/cache") expired
read_dir-delete_expired_files_example =
    read_dir-delete_expired_files (codes "f00") trees (codes "/work") (λ name. true)
      (λ name file. false) (codes "/cache") true expired (unfold with_slash has_prefix in refl)

abbrev git : Git
git = record {
  local_changes = some false;
  branch = some (codes "main");
  revision = some (codes "r9");
}

git-key : get_key_from_path git ≡ hit (key_of (codes "main") (codes "r9"))
unfolding get_key_from_path
git-key = refl

created : (get_or_create (codes "f00") git git (some 9) trees).0 ≡ hit 9
unfolding get_or_create get get_key_from_path lookup_key
created = refl

get-get_or_create_example :
    get (codes "f00") git (get_or_create (codes "f00") git git (some 9) trees).1 ≡ hit 9
get-get_or_create_example =
    get-get_or_create (codes "f00") git (key_of (codes "main") (codes "r9")) (some 9) trees 9
      (λ e. absurd (ground arith)) git-key created
