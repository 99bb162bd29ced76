-- ===== src/Inputs/Pinned.antt =====
-- What inputs that are accepted hold.
use medik8s_system_tests.Base.{
  ℕ, ◌≡◌, ◌≢◌, refl, ap, ap₂, subst, ◌⊎◌, ◌≤◌, All-map, inl, inr, true, false, ◌||◌, List, [], ◌∷◌,
  ◌++◌, Option, none, some, arith, length, All, Bool-cases, ◌==◌, nat_eq, nat_beq_iff,
}
use medik8s_system_tests.Go.Strings.{
  Text, codes, text_eq, text_beq_iff, cut, cut_here, cut_later, is_space, cut_prefix,
}
use medik8s_system_tests.Go.Strings.{trim_by}
use medik8s_system_tests.Go.Trim.{trim_by-nil}
use medik8s_system_tests.Inputs.{
  FbcUpgradeInputs, Result, ok, Host, is_member, digits, judge_digest, is_digest_pinned,
  set_skip_cleanup, first_missing, or_missing, required, getenv_trimmed, env_name, read_inputs,
  check_pinned, check_inputs, load_for, load_fbc_upgrade_inputs,
}

cut_prefix-some :
    (text prefix rest : Text) → cut_prefix text prefix ≡ some rest → text ≡ prefix ++ rest
unfolding cut_prefix
cut_prefix-some text [] rest = λ h. cc
cut_prefix-some [] (p ∷ prefix) rest = λ h. absurd (ground arith)
cut_prefix-some (c ∷ text) (p ∷ prefix) rest = elim (Bool-cases (c == p)) [
  | inl e ↦ rw e (λ h. ap₂ ◌∷◌ ((nat_beq_iff c p).0 e) (cut_prefix-some text prefix rest h))
  | inr e ↦ rw e (λ h. absurd (ground arith))
]

cut_here-some :
    (text separator before after : Text) (here : Option Text) (later : Option (Text × Text))
    → cut_prefix text separator ≡ here
    → (later ≡ some (before, after) → text ≡ before ++ (separator ++ after))
    → cut_here here later ≡ some (before, after)
    → text ≡ before ++ (separator ++ after)
unfolding cut_here
cut_here-some text separator before after none later e behind h = behind h
cut_here-some text separator before after (some rest) later e behind h =
    let start : [] ≡ before = cc in
    let same : rest ≡ after = cc in rw (← start, ← same) (cut_prefix-some text separator rest e)

cut_later-some :
    (c : ℕ) (text separator before after : Text) (later : Option (Text × Text))
    → ((b a : Text) → later ≡ some (b, a) → text ≡ b ++ (separator ++ a))
    → cut_later c later ≡ some (before, after)
    → c ∷ text ≡ before ++ (separator ++ after)
unfolding cut_later
cut_later-some c text separator before after none behind h = absurd (ground arith)
cut_later-some c text separator before after (some (b, a)) behind h =
    let start : c ∷ b ≡ before = cc in
    let same : a ≡ after = cc in rw (← start, ← same) (ap (λ t. c ∷ t) (behind b a refl))

cut-some :
    (text separator before after : Text)
    → cut text separator ≡ some (before, after)
    → text ≡ before ++ (separator ++ after)
unfolding cut
cut-some [] separator before after h =
    cut_here-some [] separator before after (cut_prefix [] separator) none refl
      (λ e. absurd (ground arith)) h
cut-some (c ∷ text) separator before after h =
    cut_here-some (c ∷ text) separator before after (cut_prefix (c ∷ text) separator)
      (cut_later c (cut text separator)) refl
      (λ e.
        cut_later-some c text separator before after (cut text separator)
          (λ b a found. cut-some text separator b a found) e)
      h

-- A decimal digit or a letter from a to f.
abbrev pub IsHex : ℕ → Type 0
IsHex c = ((48 ≤ c) × (c ≤ 57)) ⊎ ((97 ≤ c) × (c ≤ 102))

is_member-IsHex : (c : ℕ) → is_member digits c ≡ true → IsHex c
unfolding is_member
is_member-IsHex c h = ground arith

-- The image is named, and pinned by 64 hexadecimal digits.
abbrev pub IsPinned : Text → Type 0
IsPinned image =
    (name : Text) × (digest : Text) × (image ≡ name ++ (codes "@sha256:" ++ digest))
    × (name ≢ [])
    × (length digest ≡ 64)
    × All IsHex digest

judge_digest-IsPinned :
    (image : Text) (parts : Option (Text × Text))
    → cut image (codes "@sha256:") ≡ parts
    → judge_digest parts ≡ true
    → IsPinned image
unfolding judge_digest
judge_digest-IsPinned image none e h = absurd (ground arith)
judge_digest-IsPinned image (some (name, digest)) e h =
    let named : (name == []) ≡ false = ground (arith, h) in
    let sized : (length digest == 64) ≡ true = ground (arith, h) in
    let trimmed : (trim_by (is_member digits) digest == []) ≡ true = ground (arith, h) in
    (
      name,
      digest,
      cut-some image (codes "@sha256:") name digest e,
      λ empty. absurd (ground (arith, named, (text_beq_iff name []).1 empty)),
      (nat_beq_iff (length digest) 64).0 sized,
      All-map digest (λ c. is_member-IsHex c)
          (trim_by-nil (is_member digits) digest
            ((text_beq_iff (trim_by (is_member digits) digest) []).0 trimmed)),
    )

is_digest_pinned-IsPinned : (image : Text) → is_digest_pinned image ≡ true → IsPinned image
unfolding is_digest_pinned
is_digest_pinned-IsPinned image h =
    judge_digest-IsPinned image (cut image (codes "@sha256:")) refl h

abbrev pub IsComplete : FbcUpgradeInputs → Type 0
IsComplete inputs =
    IsPinned inputs.catalog_image
    × IsPinned inputs.candidate_image
    × (inputs.candidate_version ≢ [])

-- When no value is missing, none is empty.
first_missing-none :
    (values : List (Text × Text)) → first_missing values ≡ none → All (λ e. e.1 ≢ []) values
unfolding first_missing
first_missing-none [] = λ h. tt
first_missing-none ((key, value) ∷ values) = elim (Bool-cases (value == [])) [
  | inl e ↦ rw e (λ h. absurd (ground arith))
  | inr e ↦ rw e (λ h. (
    λ empty. absurd (ground (arith, e, (text_beq_iff value []).1 empty)),
    first_missing-none values h,
  ))
]

module _ (host : Host) where
  set_skip_cleanup-IsComplete :
      (value : Text) (read inputs : FbcUpgradeInputs)
      → IsComplete read
      → set_skip_cleanup host value read ≡ ok inputs
      → IsComplete inputs
  unfolding set_skip_cleanup
  set_skip_cleanup-IsComplete value read inputs complete =
      elim (Bool-cases (value == [] || value == codes "false")) [
        | inl e ↦ rw e (λ h. let same : read ≡ inputs = cc in subst IsComplete same complete)
        | inr e ↦ rw e (elim (Bool-cases (value == codes "true")) [
          | inl e' ↦ rw e' (λ h.
              let same : record read { skip_cleanup = true } ≡ inputs = cc in
              subst IsComplete same complete)
          | inr e' ↦ rw e' (λ h. absurd (ground arith))
        ])
      ]

  check_pinned-IsComplete :
      (skip_cleanup : Text) (read inputs : FbcUpgradeInputs)
      → read.candidate_version ≢ []
      → check_pinned host skip_cleanup read ≡ ok inputs
      → IsComplete inputs
  unfolding check_pinned
  check_pinned-IsComplete skip_cleanup read inputs versioned =
      elim (Bool-cases (is_digest_pinned read.catalog_image)) [
        | inl e ↦ elim (Bool-cases (is_digest_pinned read.candidate_image)) [
          | inl e' ↦
              let complete : IsComplete read = (
                is_digest_pinned-IsPinned read.catalog_image e,
                is_digest_pinned-IsPinned read.candidate_image e',
                versioned,
              ) in
              rw (e, e') (λ h. set_skip_cleanup-IsComplete skip_cleanup read inputs complete h)
          | inr e' ↦ rw (e, e') (λ h. absurd (ground arith))
        ]
        | inr e ↦ rw e (λ h. absurd (ground arith))
      ]

  or_missing-ok :
      (key : Option Text) (checked : Result FbcUpgradeInputs) (inputs : FbcUpgradeInputs)
      → or_missing key checked ≡ ok inputs
      → (key ≡ none) × (checked ≡ ok inputs)
  or_missing-ok none checked inputs h = (refl, h)
  or_missing-ok (some key) checked inputs h = absurd (ground arith)

  check_inputs-IsComplete :
      (operator : Text) (read inputs : FbcUpgradeInputs)
      → check_inputs host operator read ≡ ok inputs
      → IsComplete inputs
  unfolding check_inputs
  check_inputs-IsComplete operator read inputs h =
      let (all_set, checked) = or_missing-ok _ _ inputs h in
      let (catalog, (version, rest)) = first_missing-none (required host operator read) all_set in
      check_pinned-IsComplete (getenv_trimmed host (env_name host operator (codes "SKIP_CLEANUP")))
        read inputs version checked

  load_for-IsComplete :
      (operator : Text) (inputs : FbcUpgradeInputs)
      → load_for host operator ≡ ok inputs
      → IsComplete inputs
  unfolding load_for
  load_for-IsComplete operator inputs = elim (Bool-cases (operator == [])) [
    | inl e ↦ rw e (λ h. absurd (ground arith))
    | inr e ↦ rw e (λ h. check_inputs-IsComplete operator (read_inputs host operator) inputs h)
  ]

  -- Inputs that `LoadFBCUpgradeInputs` accepts have a candidate version, and both images consist of a
  -- name that is not empty, `@sha256:` and 64 lower-case hexadecimal digits, whatever the environment
  -- and the files are.
  pub load_fbc_upgrade_inputs-IsComplete :
      (operator_name : Text) (inputs : FbcUpgradeInputs)
      → load_fbc_upgrade_inputs host operator_name ≡ ok inputs
      → IsComplete inputs
  unfolding load_fbc_upgrade_inputs
  load_fbc_upgrade_inputs-IsComplete operator_name inputs h =
      load_for-IsComplete (host.to_upper (trim_by is_space operator_name)) inputs h
