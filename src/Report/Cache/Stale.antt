-- ===== src/Report/Cache/Stale.antt =====
-- What the second loop of `Update` keeps and deletes, by the revisions that the first has collected.
use medik8s_system_tests.Base.{
  ◌≡◌, refl, sym, ◌∙◌, ◌↔◌, inl, inr, true, false, List, [], ◌∷◌, Option, none, some, arith, All,
  Any, Bool-cases, ◌==◌,
}
use medik8s_system_tests.Go.Strings.{Text, text_eq, text_beq_iff}
use medik8s_system_tests.Report.Cache.{
  CacheKey, key_beq, lookup_key, delete_key, set_revision, cached_revisions, is_current, drop_stale,
}

pub key_beq_iff :
    (a b : CacheKey) → (key_beq a b ≡ true) ↔ ((a.branch ≡ b.branch) × (a.revision ≡ b.revision))
key_beq_iff a b = ground (arith, text_beq_iff a.branch b.branch, text_beq_iff a.revision b.revision)

pub key_beq-equal : (a b : CacheKey) → key_beq a b ≡ true → a ≡ b
key_beq-equal a b h =
    let (e, f) = (key_beq_iff a b).0 h in λ k. record { branch = e k; revision = f k }

-- Equal keys pass the same tests.
pub same_from : (a b c : CacheKey) → key_beq a b ≡ true → key_beq a c ≡ key_beq b c
same_from a b c h = let (e, f) = (key_beq_iff a b).0 h in rw (e, f) refl

pub same_to : (a b c : CacheKey) → key_beq a b ≡ true → key_beq c a ≡ key_beq c b
same_to a b c h = let (e, f) = (key_beq_iff a b).0 h in rw (e, f) refl

abbrev pub IsKey : CacheKey → Text × Text → Type 0
IsKey key (branch, revision) = (branch ≡ key.branch) × (revision ≡ key.revision)

is_current-same :
    (remote : Text → Option Text) (a b r s : Text)
    → a ≡ b
    → r ≡ s
    → is_current remote a r ≡ is_current remote b s
is_current-same remote a b r s e f = λ k. is_current remote (e k) (f k)

-- Setting the revision of a branch lists it, and keeps what is listed of other branches or is the same.
set_revision-new :
    (key : CacheKey) (branch revision : Text) (revisions : List (Text × Text))
    → IsKey key (branch, revision)
    → Any (IsKey key) (set_revision branch revision revisions)
unfolding set_revision
set_revision-new key branch revision [] is = inl is
set_revision-new key branch revision ((other, old) ∷ revisions) (at, is) =
    elim (Bool-cases (other == branch)) [
      | inl e ↦ rw e (inl ((text_beq_iff other branch).0 e ∙ at, is))
      | inr e ↦ rw e (inr (set_revision-new key branch revision revisions (at, is)))
    ]

set_revision-old :
    (key : CacheKey) (branch revision : Text) (revisions : List (Text × Text))
    → (branch ≡ key.branch → revision ≡ key.revision)
    → Any (IsKey key) revisions
    → Any (IsKey key) (set_revision branch revision revisions)
unfolding set_revision
set_revision-old key branch revision [] agree listed = elim listed [ ]
set_revision-old key branch revision ((other, old) ∷ revisions) agree (inl (at, is)) =
    elim (Bool-cases (other == branch)) [
      | inl e ↦
          let same : branch ≡ key.branch = sym ((text_beq_iff other branch).0 e) ∙ at in
          rw e (inl (at, agree same))
      | inr e ↦ rw e (inl (at, is))
    ]
set_revision-old key branch revision ((other, old) ∷ revisions) agree (inr later) =
    elim (Bool-cases (other == branch)) [
      | inl e ↦ rw e (inr later)
      | inr e ↦ rw e (inr (set_revision-old key branch revision revisions agree later))
    ]

module _ {ℓ} {A : Type ℓ} where
  -- Every tree of the key's branch has its revision.
  abbrev pub Agrees : CacheKey → List (CacheKey × A) → Type 0
  Agrees key trees = All (λ e. e.0.branch ≡ key.branch → e.0.revision ≡ key.revision) trees

  cached_revisions-old :
      (key : CacheKey) (trees : List (CacheKey × A)) (revisions : List (Text × Text))
      → Agrees key trees
      → Any (IsKey key) revisions
      → Any (IsKey key) (cached_revisions trees revisions)
  unfolding cached_revisions
  cached_revisions-old key [] revisions agrees listed = listed
  cached_revisions-old key ((other, tree) ∷ trees) revisions (agree, agrees) listed =
      cached_revisions-old key trees (set_revision other.branch other.revision revisions) agrees
        (set_revision-old key other.branch other.revision revisions agree listed)

  pub cached_revisions-new :
      (key : CacheKey) (trees : List (CacheKey × A)) (revisions : List (Text × Text)) (tree : A)
      → Agrees key trees
      → lookup_key key trees ≡ some tree
      → Any (IsKey key) (cached_revisions trees revisions)
  unfolding cached_revisions lookup_key
  cached_revisions-new key [] revisions tree agrees = λ found. absurd (ground arith)
  cached_revisions-new key ((other, first) ∷ trees) revisions tree (agree, agrees) =
      elim (Bool-cases (key_beq other key)) [
        | inl e ↦ λ found.
            cached_revisions-old key trees (set_revision other.branch other.revision revisions)
              agrees
              (set_revision-new key other.branch other.revision revisions
                ((key_beq_iff other key).0 e))
        | inr e ↦ rw e (λ found.
            cached_revisions-new key trees (set_revision other.branch other.revision revisions) tree
              agrees found)
      ]

  lookup_key-delete_same :
      (key gone : CacheKey) (trees : List (CacheKey × A))
      → key_beq gone key ≡ true
      → lookup_key key (delete_key gone trees) ≡ none
  unfolding lookup_key delete_key
  lookup_key-delete_same key gone [] e = refl
  lookup_key-delete_same key gone ((other, tree) ∷ trees) e =
      elim (Bool-cases (key_beq other gone)) [
        | inl t ↦ rw t (lookup_key-delete_same key gone trees e)
        | inr t ↦
            let differs : key_beq other key ≡ false = sym (same_to gone key other e) ∙ t in
            rw t (rw differs (lookup_key-delete_same key gone trees e))
      ]

  lookup_key-delete_other :
      (key gone : CacheKey) (trees : List (CacheKey × A))
      → key_beq gone key ≡ false
      → lookup_key key (delete_key gone trees) ≡ lookup_key key trees
  unfolding lookup_key delete_key
  lookup_key-delete_other key gone [] e = refl
  lookup_key-delete_other key gone ((other, tree) ∷ trees) e =
      elim (Bool-cases (key_beq other gone)) [
        | inl t ↦
            let differs : key_beq other key ≡ false = same_from other gone key t ∙ e in
            rw t (rw differs (lookup_key-delete_other key gone trees e))
        | inr t ↦ rw t (rw (lookup_key-delete_other key gone trees e) refl)
      ]

  -- What is not in the cache does not come into it.
  lookup_key-delete_none :
      (key gone : CacheKey) (trees : List (CacheKey × A))
      → lookup_key key trees ≡ none
      → lookup_key key (delete_key gone trees) ≡ none
  lookup_key-delete_none key gone trees missing = elim (Bool-cases (key_beq gone key)) [
    | inl e ↦ lookup_key-delete_same key gone trees e
    | inr e ↦ lookup_key-delete_other key gone trees e ∙ missing
  ]

  module _ (remote : Text → Option Text) (key : CacheKey) where
    pub drop_stale-none :
        (revisions : List (Text × Text)) (trees : List (CacheKey × A))
        → lookup_key key trees ≡ none
        → lookup_key key (drop_stale remote revisions trees) ≡ none
    unfolding drop_stale
    drop_stale-none [] trees missing = missing
    drop_stale-none ((branch, revision) ∷ revisions) trees missing =
        elim (Bool-cases (is_current remote branch revision)) [
          | inl e ↦ rw e (drop_stale-none revisions trees missing)
          | inr e ↦
              let gone : CacheKey = record { branch = branch; revision = revision } in
              rw e (
                drop_stale-none revisions (delete_key gone trees)
                  (lookup_key-delete_none key gone trees missing))
        ]

    -- A current tree stays.
    pub drop_stale-current :
        (revisions : List (Text × Text)) (trees : List (CacheKey × A))
        → is_current remote key.branch key.revision ≡ true
        → lookup_key key (drop_stale remote revisions trees) ≡ lookup_key key trees
    unfolding drop_stale
    drop_stale-current [] trees current = refl
    drop_stale-current ((branch, revision) ∷ revisions) trees current =
        elim (Bool-cases (is_current remote branch revision)) [
          | inl e ↦ rw e (drop_stale-current revisions trees current)
          | inr e ↦
              let gone : CacheKey = record { branch = branch; revision = revision } in
              let differs : key_beq gone key ≡ false = elim (Bool-cases (key_beq gone key)) [
                | inl t ↦
                    let (at, is) = (key_beq_iff gone key).0 t in
                    absurd (
                      ground (
                        arith,
                        is_current-same remote branch key.branch revision key.revision at is,
                        e,
                        current,
                      ))
                | inr t ↦ t
              ] in
              rw e (
                drop_stale-current revisions (delete_key gone trees) current
                ∙ lookup_key-delete_other key gone trees differs)
        ]

    -- A tree whose branch and revision are listed, and are not current, is deleted.
    pub drop_stale-stale :
        (revisions : List (Text × Text)) (trees : List (CacheKey × A))
        → is_current remote key.branch key.revision ≡ false
        → Any (IsKey key) revisions
        → lookup_key key (drop_stale remote revisions trees) ≡ none
    unfolding drop_stale
    drop_stale-stale [] trees stale listed = elim listed [ ]
    drop_stale-stale ((branch, revision) ∷ revisions) trees stale (inl (at, is)) =
        let gone : CacheKey = record { branch = branch; revision = revision } in
        let e : is_current remote branch revision ≡ false =
          is_current-same remote branch key.branch revision key.revision at is ∙ stale in
        rw e (
          drop_stale-none revisions (delete_key gone trees)
            (lookup_key-delete_same key gone trees ((key_beq_iff gone key).1 (at, is))))
    drop_stale-stale ((branch, revision) ∷ revisions) trees stale (inr later) =
        elim (Bool-cases (is_current remote branch revision)) [
          | inl e ↦ rw e (drop_stale-stale revisions trees stale later)
          | inr e ↦
              let gone : CacheKey = record { branch = branch; revision = revision } in
              rw e (drop_stale-stale revisions (delete_key gone trees) stale later)
        ]
