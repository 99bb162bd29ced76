-- ===== src/Report/Cache/Update.antt =====
-- Which trees `Update` leaves in the cache.
use medik8s_system_tests.Base.{
  ◌≡◌, ◌≢◌, refl, sym, ◌∙◌, inl, inr, true, false, List, [], Option, none, some, arith, Bool-cases,
  Option-cases, if◌then◌else◌, ◌==◌,
}
use medik8s_system_tests.Go.Strings.{Text, text_eq, text_beq_iff}
use medik8s_system_tests.Report.Cache.{
  CacheKey, lookup_key, cached_revisions, is_current, drop_stale, find_revision, branches_of,
  update,
}
use medik8s_system_tests.Report.Cache.Asked.{AnswersFor, is_current-cached}
use medik8s_system_tests.Report.Cache.Stale.{
  Agrees, cached_revisions-new, drop_stale-none, drop_stale-current, drop_stale-stale,
}

module _ {ℓ} {A : Type ℓ} where
  -- An update that returns no error has an answer.
  update-answered :
      (sum : Text) (remote : List Text → Option (List (Text × Text))) (trees : List (CacheKey × A))
      → sum ≢ []
      → (update sum remote trees).1 ≡ true
      → (latest : List (Text × Text)) × (remote (branches_of (cached_revisions trees []))
          ≡ some latest)
        × ((update sum remote trees).0
            ≡ drop_stale (find_revision latest) (cached_revisions trees []) trees)
  unfolding update
  update-answered sum remote trees known =
      let known' : (sum == []) ≡ false = elim (Bool-cases (sum == [])) [
        | inl e ↦ absurd (known ((text_beq_iff sum []).0 e))
        | inr e ↦ e
      ] in
      elim (Option-cases (remote (branches_of (cached_revisions trees [])))) [
        | inl e ↦ rw (known', e) (λ h. absurd (ground (arith, h)))
        | inr (latest, e) ↦ rw (known', e) (λ h. (latest, refl, refl))
      ]

  -- When the source code's checksum is known and `Update` returns no error, and of each branch that it
  -- is asked for `git ls-remote` tells the repository's revision, then a key whose branch is cached
  -- with no other revision is looked up after `Update` as before if its revision is that of its
  -- branch in the repository, and missed otherwise.
  pub lookup_key-update :
      (sum : Text) (remote : List Text → Option (List (Text × Text)))
      (repository : Text → Option Text) (key : CacheKey) (trees : List (CacheKey × A))
      → sum ≢ []
      → AnswersFor repository remote
      → Agrees key trees
      → (update sum remote trees).1 ≡ true
      → lookup_key key (update sum remote trees).0
        ≡ (if is_current repository key.branch key.revision then lookup_key key trees else none)
  lookup_key-update sum remote repository key trees known answers agrees fine =
      let revisions = cached_revisions trees [] in
      let (latest, answered, left) = update-answered sum remote trees known fine in
      let told = find_revision latest in
      rw left (elim (Option-cases (lookup_key key trees)) [
        | inl missing ↦
            let gone = drop_stale-none told key revisions trees missing in
            elim (Bool-cases (is_current repository key.branch key.revision)) [
              | inl e ↦ rw e (gone ∙ sym missing)
              | inr e ↦ rw e gone
            ]
        | inr (tree, found) ↦
            let same =
              is_current-cached repository remote latest key trees tree answers answered found in
            elim (Bool-cases (is_current repository key.branch key.revision)) [
              | inl e ↦ rw e (drop_stale-current told key revisions trees (same ∙ e))
              | inr e ↦ rw e (
                  drop_stale-stale told key revisions trees (same ∙ e)
                    (cached_revisions-new key trees [] tree agrees found))
            ]
      ])

  -- A current tree is looked up after `Update` as before, however many revisions of its branch there are.
  pub lookup_key-update_current :
      (sum : Text) (remote : List Text → Option (List (Text × Text)))
      (repository : Text → Option Text) (key : CacheKey) (trees : List (CacheKey × A)) (tree : A)
      → sum ≢ []
      → AnswersFor repository remote
      → is_current repository key.branch key.revision ≡ true
      → (update sum remote trees).1 ≡ true
      → lookup_key key trees ≡ some tree
      → lookup_key key (update sum remote trees).0 ≡ some tree
  lookup_key-update_current sum remote repository key trees tree known answers current fine found =
      let (latest, answered, left) = update-answered sum remote trees known fine in
      let same = is_current-cached repository remote latest key trees tree answers answered found in
      rw left (
        drop_stale-current (find_revision latest) key (cached_revisions trees []) trees
          (same ∙ current)
        ∙ found)
