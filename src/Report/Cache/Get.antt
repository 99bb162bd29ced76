-- ===== src/Report/Cache/Get.antt =====
-- `GetKeyFromPath`, `Get` and `GetOrCreate`. What Git answers, and what the dry run gives, are
-- parameters; an answer `none` is an error of the call.
use medik8s_system_tests.Base.{
  ◌≡◌, ◌≢◌, refl, ap, ◌∙◌, inl, inr, Bool, true, false, List, [], ◌∷◌, Option, none, some, arith,
  Bool-cases, subst, Option-cases, if◌then◌else◌, ◌==◌,
}
use medik8s_system_tests.Go.Strings.{Text, text_eq, text_beq_iff}
use medik8s_system_tests.Report.Cache.{CacheKey, key_beq, lookup_key}
use medik8s_system_tests.Report.Cache.Stale.{key_beq_iff, key_beq-equal, same_from}

pub record Git : Type 0 where
  pub local_changes : Option Bool
  pub branch : Option Text
  pub revision : Option Text

-- A value, the error of a cache miss, or another error.
pub data Answer {ℓ} (A : Type ℓ) : Type ℓ where
  hit : A → Answer A
  miss error : Answer A

unfoldable pub key_from_branch : Option Text → Option Text → Answer CacheKey
key_from_branch none revision = error
key_from_branch (some branch) none = error
key_from_branch (some branch) (some revision) =
    hit (record { branch = branch; revision = revision })

unfoldable pub key_from_path : Option Bool → Git → Answer CacheKey
unfolding key_from_branch
key_from_path none git = error
key_from_path (some true) git = miss
key_from_path (some false) git = key_from_branch git.branch git.revision

unfoldable pub get_key_from_path : Git → Answer CacheKey
unfolding key_from_path
get_key_from_path git = key_from_path git.local_changes git

module _ {ℓ} {A : Type ℓ} where
  abbrev pub or_miss : Option A → Answer A
  or_miss none = miss
  or_miss (some tree) = hit tree

  unfoldable pub get_cached : Answer CacheKey → List (CacheKey × A) → Answer A
  get_cached (hit key) trees = or_miss (lookup_key key trees)
  get_cached miss trees = miss
  get_cached error trees = error

  unfoldable pub get : (source_code_sum : Text) → Git → List (CacheKey × A) → Answer A
  unfolding get_cached
  get source_code_sum git trees =
      let cached = get_cached (get_key_from_path git) trees in
      if source_code_sum == [] then miss else cached

  -- `cache.Trees[key] = tree`
  unfoldable pub set_tree : CacheKey → A → List (CacheKey × A) → List (CacheKey × A)
  set_tree key tree [] = (key, tree) ∷ []
  set_tree key tree ((other, old) ∷ trees) =
      let later = set_tree key tree trees in
      if key_beq other key then (other, tree) ∷ trees else (other, old) ∷ later

  unfoldable pub store_created : Answer CacheKey → A → List (CacheKey × A) → List (CacheKey × A)
  unfolding set_tree
  store_created (hit key) tree trees = set_tree key tree trees
  store_created miss tree trees = trees
  store_created error tree trees = trees

  -- After a miss: `created` is the tree of the dry run, `git` what is asked after it.
  unfoldable pub create_tree :
      Git → (created : Option A) → List (CacheKey × A) → Answer A × List (CacheKey × A)
  unfolding store_created
  create_tree git none trees = (error, trees)
  create_tree git (some tree) trees = (hit tree, store_created (get_key_from_path git) tree trees)

  unfoldable pub after_get :
      Answer A → Git → (created : Option A) → List (CacheKey × A) → Answer A × List (CacheKey × A)
  unfolding create_tree
  after_get (hit tree) git created trees = (hit tree, trees)
  after_get miss git created trees = create_tree git created trees
  after_get error git created trees = (error, trees)

  unfoldable pub get_or_create :
      (source_code_sum : Text) (git later : Git) (created : Option A)
      → List (CacheKey × A)
      → Answer A × List (CacheKey × A)
  unfolding after_get
  get_or_create source_code_sum git later created trees =
      after_get (get source_code_sum git trees) later created trees

  pub lookup_key-set_tree_other :
      (key other : CacheKey) (tree : A) (trees : List (CacheKey × A))
      → key_beq other key ≡ false
      → lookup_key key (set_tree other tree trees) ≡ lookup_key key trees
  unfolding lookup_key set_tree
  lookup_key-set_tree_other key other tree [] apart = rw apart refl
  lookup_key-set_tree_other key other tree ((here, old) ∷ trees) apart =
      elim (Bool-cases (key_beq here other)) [
        | inl e ↦
            let differs : key_beq here key ≡ false = same_from here other key e ∙ apart in
            rw e (rw differs refl)
        | inr e ↦ rw e (rw (lookup_key-set_tree_other key other tree trees apart) refl)
      ]

  pub lookup_key-set_tree :
      (key : CacheKey) (tree : A) (trees : List (CacheKey × A))
      → lookup_key key (set_tree key tree trees) ≡ some tree
  unfolding lookup_key set_tree
  lookup_key-set_tree key tree [] =
      let same : key_beq key key ≡ true = (key_beq_iff key key).1 (refl, refl) in rw same refl
  lookup_key-set_tree key tree ((other, old) ∷ trees) = elim (Bool-cases (key_beq other key)) [
    | inl e ↦ rw e (rw e refl)
    | inr e ↦ rw e (rw e (lookup_key-set_tree key tree trees))
  ]

  pub lookup_key-set_tree_same :
      (key other : CacheKey) (tree : A) (trees : List (CacheKey × A))
      → key_beq other key ≡ true
      → lookup_key key (set_tree other tree trees) ≡ some tree
  lookup_key-set_tree_same key other tree trees same =
      subst (λ k. lookup_key k (set_tree other tree trees) ≡ some tree)
        (key_beq-equal other key same) (lookup_key-set_tree other tree trees)

  pub get-key :
      (sum : Text) (git : Git) (key : CacheKey) (trees : List (CacheKey × A))
      → sum ≢ []
      → get_key_from_path git ≡ hit key
      → get sum git trees ≡ or_miss (lookup_key key trees)
  unfolding get
  get-key sum git key trees known e =
      let known' : (sum == []) ≡ false = elim (Bool-cases (sum == [])) [
        | inl t ↦ absurd (known ((text_beq_iff sum []).0 t))
        | inr t ↦ t
      ] in
      rw (known', e) refl

  get-create_tree :
      (sum : Text) (git : Git) (key : CacheKey) (created : Option A) (trees : List (CacheKey × A))
      (tree : A)
      → sum ≢ []
      → get_key_from_path git ≡ hit key
      → (create_tree git created trees).0 ≡ hit tree
      → get sum git (create_tree git created trees).1 ≡ hit tree
  unfolding create_tree
  get-create_tree sum git key none trees tree known e h = absurd (ground arith)
  get-create_tree sum git key (some new) trees tree known e h =
      let stored : store_created (get_key_from_path git) new trees ≡ set_tree key new trees =
        unfold store_created in rw e refl in
      ap (λ kept. get sum git kept) stored
      ∙ get-key sum git key (set_tree key new trees) known e
      ∙ ap or_miss (lookup_key-set_tree key new trees)
      ∙ h

  -- When the checksum of the source code is known and Git gives a key, which means that it answers and
  -- there are no local changes, then after a call of `GetOrCreate` that returned a tree and found Git
  -- unchanged, `Get` returns the same tree.
  pub get-get_or_create :
      (sum : Text) (git : Git) (key : CacheKey) (created : Option A) (trees : List (CacheKey × A))
      (tree : A)
      → sum ≢ []
      → get_key_from_path git ≡ hit key
      → (get_or_create sum git git created trees).0 ≡ hit tree
      → get sum git (get_or_create sum git git created trees).1 ≡ hit tree
  unfolding get_or_create
  get-get_or_create sum git key created trees tree known e =
      let cached = get-key sum git key trees known e in
      elim (Option-cases (lookup_key key trees)) [
        | inl missing ↦
            let missed : get sum git trees ≡ miss = cached ∙ ap or_miss missing in
            rw missed (get-create_tree sum git key created trees tree known e)
        | inr (old, found) ↦
            let hits : get sum git trees ≡ hit old = cached ∙ ap or_miss found in
            rw hits (λ same. hits ∙ same)
      ]
