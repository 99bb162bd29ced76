-- ===== src/Report/Cache/Asked.antt =====
-- Which branches `Update` asks the remote repository for, and what it is told of them.
use medik8s_system_tests.Base.{
  ◌≡◌, refl, ◌∙◌, ◌⊎◌, inl, inr, List, [], ◌∷◌, Option, some, arith, Any, Bool-cases, ◌==◌,
}
use medik8s_system_tests.Go.Strings.{Text, text_eq, text_beq_iff}
use medik8s_system_tests.Report.Cache.{
  CacheKey, key_beq, lookup_key, set_revision, cached_revisions, is_current, branches_of,
  find_revision,
}

abbrev pub HasBranch : Text → List (Text × Text) → Type 0
HasBranch branch revisions = Any (λ other. other ≡ branch) (branches_of revisions)

-- What `git ls-remote` promises: of each branch that it is asked for, it prints the revision that the
-- repository has for it, if there is one. It may print other branches too, as a pattern matches the end
-- of a name.
abbrev pub AnswersFor :
    (repository : Text → Option Text) (remote : List Text → Option (List (Text × Text))) → Type 0
AnswersFor repository remote =
    (branches : List Text) (latest : List (Text × Text)) (branch : Text)
    → remote branches ≡ some latest
    → Any (λ other. other ≡ branch) branches
    → find_revision latest branch ≡ repository branch

pub is_current-found :
    (f g : Text → Option Text) (branch revision : Text)
    → f branch ≡ g branch
    → is_current f branch revision ≡ is_current g branch revision
unfolding is_current
is_current-found f g branch revision e = rw (e, is_current) refl

set_revision-HasBranch :
    (sought branch revision : Text) (revisions : List (Text × Text))
    → (branch ≡ sought) ⊎ HasBranch sought revisions
    → HasBranch sought (set_revision branch revision revisions)
unfolding set_revision
set_revision-HasBranch sought branch revision [] (inl here) = inl here
set_revision-HasBranch sought branch revision [] (inr later) = elim later [ ]
set_revision-HasBranch sought branch revision ((other, old) ∷ revisions) has =
    elim (Bool-cases (other == branch)) [
      | inl e ↦
          rw e (elim has [ inl here ↦ inl ((text_beq_iff other branch).0 e ∙ here) | inr h ↦ h ])
      | inr e ↦ rw e (elim has [
        | inl here ↦ inr (set_revision-HasBranch sought branch revision revisions (inl here))
        | inr (inl first) ↦ inl first
        | inr (inr later) ↦
            inr (set_revision-HasBranch sought branch revision revisions (inr later))
      ])
    ]

module _ {ℓ} {A : Type ℓ} where
  cached_revisions-HasBranch :
      (key : CacheKey) (trees : List (CacheKey × A)) (revisions : List (Text × Text)) (tree : A)
      → (lookup_key key trees ≡ some tree) ⊎ HasBranch key.branch revisions
      → HasBranch key.branch (cached_revisions trees revisions)
  unfolding cached_revisions lookup_key
  cached_revisions-HasBranch key [] revisions tree (inl found) = absurd (ground arith)
  cached_revisions-HasBranch key [] revisions tree (inr has) = has
  cached_revisions-HasBranch key ((other, first) ∷ trees) revisions tree has =
      let set = set_revision other.branch other.revision revisions in
      let goes = cached_revisions-HasBranch key trees set tree in
      let keeps = set_revision-HasBranch key.branch other.branch other.revision revisions in
      elim (Bool-cases (key_beq other key)) [
        | inl e ↦
            let same : other.branch ≡ key.branch =
              (text_beq_iff other.branch key.branch).0 (ground (arith, e)) in
            goes (inr (keeps (inl same)))
        | inr e ↦ elim has [
          | inl found ↦ goes (inl (rw e at found))
          | inr h ↦ goes (inr (keeps (inr h)))
        ]
      ]

  -- The branch of a cached key is asked for, so that the answer has its revision.
  pub is_current-cached :
      (repository : Text → Option Text) (remote : List Text → Option (List (Text × Text)))
      (latest : List (Text × Text)) (key : CacheKey) (trees : List (CacheKey × A)) (tree : A)
      → AnswersFor repository remote
      → remote (branches_of (cached_revisions trees [])) ≡ some latest
      → lookup_key key trees ≡ some tree
      → is_current (find_revision latest) key.branch key.revision
        ≡ is_current repository key.branch key.revision
  is_current-cached repository remote latest key trees tree answers answered found =
      is_current-found (find_revision latest) repository key.branch key.revision (
        answers (branches_of (cached_revisions trees [])) latest key.branch answered
          (cached_revisions-HasBranch key trees [] tree (inl found)))
