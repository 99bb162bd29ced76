-- ===== src/Bundle/Upgrade.antt =====
-- What the inputs of an upgrade hold that are accepted.
use mathlib.Core.Option.{some-injective}
use medik8s_system_tests.Base.{
  ◌≡◌, ◌≢◌, ◌⊎◌, refl, subst, true, false, [], Option, none, some, ◌==◌, arith, Bool-cases, inl,
  inr,
}
use medik8s_system_tests.Go.Strings.{Text, text_eq, text_beq_iff}
use medik8s_system_tests.Bundle.{
  InspectedBundle, UpgradeOperatorInputs, Tools, Action, and_then, verify_bundle, resolved_artifact,
}
use medik8s_system_tests.Bundle.Inspect.{
  inspect_image, inspect_bundle, if_equal, require_same_image, require_different_image,
  return_bundle, verified, inspect_and_verify_bundle, baseline_bundle, resolve_to, compare_bundles,
  with_baseline, with_pullspec, resolve_and_verify_upgrade_operator_inputs,
}

-- What follows a step is reached with what the step gives.
and_then-some :
    {W A B : Type 0} (r : W × Option A) (next : A → Action W B) (b : B)
    → (and_then r next).1 ≡ some b
    → (a : A) × (r.1 ≡ some a) × ((next a r.0).1 ≡ some b)
unfolding and_then
and_then-some (w, none) next b h = absurd (cc)
and_then-some (w, some a) next b h = (a, refl, h)

-- A version that is asked for is the one that is found.
abbrev pub IsPinned : (expected found : Text) → Type 0
IsPinned expected found = (expected ≡ []) ⊎ (found ≡ expected)

module _ {W : Type 0} (tools : Tools W) where
  -- From some state on, the two images are inspected and have different digests.
  abbrev pub HaveDifferentDigests : (baseline candidate : Text) → Type 0
  HaveDifferentDigests baseline candidate =
      (w : W) × (first : Text) × (second : Text) × ((inspect_image tools baseline w).1 ≡ some first)
      × ((inspect_image tools candidate (inspect_image tools baseline w).0).1 ≡ some second)
      × (first ≢ second)

  if_equal-different : (a b : Text) (w : W) → (if_equal tools (a == b) false w).1 ≡ some tt → a ≢ b
  if_equal-different a b w = elim (Bool-cases (a == b)) [
    | inl e ↦ rw e (λ h. absurd (cc))
    | inr e ↦ rw e (λ h same. absurd (ground (arith, e, (text_beq_iff a b).1 same)))
  ]

  require_different_image-digests :
      (baseline candidate : Text) (w : W)
      → (require_different_image tools baseline candidate w).1 ≡ some tt
      → HaveDifferentDigests baseline candidate
  unfolding require_different_image
  require_different_image-digests baseline candidate w h =
      let (first, at, later) =
        and_then-some (inspect_image tools baseline w)
          (λ first u.
            and_then (inspect_image tools candidate u)
              (λ second. if_equal tools (first == second) false))
          tt h in
      let (second, there, differ) =
        and_then-some (inspect_image tools candidate (inspect_image tools baseline w).0)
          (λ second. if_equal tools (first == second) false) tt later in
      (
        w,
        first,
        second,
        at,
        there,
        if_equal-different first second
            (inspect_image tools candidate (inspect_image tools baseline w).0).0 differ,
      )

  verify_bundle-IsPinned :
      (bundle : InspectedBundle) (package_name version : Text)
      → verify_bundle bundle package_name version ≡ true
      → (bundle.package_name ≡ package_name) × IsPinned version bundle.version
  unfolding verify_bundle
  verify_bundle-IsPinned bundle package_name version h = (
    (text_beq_iff bundle.package_name package_name).0 (ground (arith, h)),
    elim (Bool-cases (version == [])) [
      | inl e ↦ inl ((text_beq_iff version []).0 e)
      | inr e ↦ inr ((text_beq_iff bundle.version version).0 (ground (arith, h, e)))
    ],
  )

  verified-IsPinned :
      (package_name version image : Text) (bundle given : InspectedBundle) (w : W)
      → (verified tools package_name version image bundle w).1 ≡ some given
      → (given.package_name ≡ package_name) × IsPinned version given.version
  unfolding verified
  verified-IsPinned package_name version image bundle given w =
      elim (Bool-cases (verify_bundle bundle package_name version)) [
        | inr e ↦ rw e (λ h. absurd (cc))
        | inl e ↦
            let (packaged, pinned) = verify_bundle-IsPinned bundle package_name version e in
            let keep : bundle ≡ given
                → (given.package_name ≡ package_name) × IsPinned version given.version =
              λ same.
                subst (λ b. (b.package_name ≡ package_name) × IsPinned version b.version) same
                  (packaged, pinned) in
            elim (Bool-cases (image == [])) [
              | inl f ↦ rw (e, f) (λ h. keep (some-injective bundle given h))
              | inr f ↦
                  rw (e, f)
                    (λ h.
                      let (same, at, gives) =
                        and_then-some (require_same_image tools bundle.manager_image image w)
                          (λ same. return_bundle tools bundle) given h in
                      keep (some-injective bundle given gives))
            ]
      ]

  inspect_and_verify_bundle-IsPinned :
      (pullspec package_name version image : Text) (given : InspectedBundle) (w : W)
      → (inspect_and_verify_bundle tools pullspec package_name version image w).1 ≡ some given
      → (given.package_name ≡ package_name) × IsPinned version given.version
  unfolding inspect_and_verify_bundle
  inspect_and_verify_bundle-IsPinned pullspec package_name version image given w h =
      let (bundle, at, later) =
        and_then-some (inspect_bundle tools pullspec w) (verified tools package_name version image)
          given h in
      verified-IsPinned package_name version image bundle given (inspect_bundle tools pullspec w).0
        later

  -- What accepted inputs hold.
  abbrev pub IsUpgrade : (inputs resolved : UpgradeOperatorInputs) → Type 0
  IsUpgrade inputs resolved =
      (resolved.baseline_sbr.version ≢ resolved.candidate_sbr.version)
      × HaveDifferentDigests resolved.baseline_sbr.image resolved.candidate_sbr.image
      × IsPinned inputs.baseline_sbr.version resolved.baseline_sbr.version
      × IsPinned inputs.candidate_sbr.version resolved.candidate_sbr.version
      × (resolved.package_name ≡ inputs.package_name)

  compare_bundles-IsUpgrade :
      (inputs resolved : UpgradeOperatorInputs) (baseline candidate : InspectedBundle) (w : W)
      → IsPinned inputs.baseline_sbr.version baseline.version
      → IsPinned inputs.candidate_sbr.version candidate.version
      → (compare_bundles tools inputs baseline candidate w).1 ≡ some resolved
      → IsUpgrade inputs resolved
  unfolding compare_bundles
  compare_bundles-IsUpgrade inputs resolved baseline candidate w pb pc =
      elim (Bool-cases (baseline.version == candidate.version)) [
        | inl e ↦ rw e (λ h. absurd (cc))
        | inr e ↦ rw e (λ h.
            let (done, at, later) =
              and_then-some
                (require_different_image tools baseline.manager_image candidate.manager_image w)
                (resolve_to tools inputs baseline candidate) resolved h in
            subst (IsUpgrade inputs)
              (some-injective
                (record inputs {
                  baseline_sbr = resolved_artifact baseline;
                  candidate_sbr = resolved_artifact candidate;
                })
                resolved later)
              (
                (λ same.
                    absurd (
                      ground (arith, e, (text_beq_iff baseline.version candidate.version).1 same))),
                require_different_image-digests baseline.manager_image candidate.manager_image w at,
                pb,
                pc,
                refl,
              ))
      ]

  with_pullspec-IsUpgrade :
      (inputs resolved : UpgradeOperatorInputs) (pullspec : Text) (w : W)
      → (with_pullspec tools inputs pullspec w).1 ≡ some resolved
      → IsUpgrade inputs resolved
  unfolding with_pullspec with_baseline
  with_pullspec-IsUpgrade inputs resolved pullspec w h =
      let baseline_step =
        inspect_and_verify_bundle tools pullspec inputs.package_name inputs.baseline_sbr.version
          inputs.baseline_sbr.image w in
      let candidate_step =
        inspect_and_verify_bundle tools inputs.candidate_sbr.bundle inputs.package_name
          inputs.candidate_sbr.version inputs.candidate_sbr.image baseline_step.0 in
      let (baseline, found, next) =
        and_then-some baseline_step (with_baseline tools inputs) resolved h in
      let (candidate, given, last) =
        and_then-some candidate_step (compare_bundles tools inputs baseline) resolved next in
      compare_bundles-IsUpgrade inputs resolved baseline candidate candidate_step.0
        (inspect_and_verify_bundle-IsPinned pullspec inputs.package_name inputs.baseline_sbr.version
          inputs.baseline_sbr.image baseline w found).1
        (inspect_and_verify_bundle-IsPinned inputs.candidate_sbr.bundle inputs.package_name
          inputs.candidate_sbr.version inputs.candidate_sbr.image candidate baseline_step.0 given).1
        last

  -- When `ResolveAndVerifyUpgradeOperatorInputs` returns no error, the resolved baseline and candidate have
  -- different versions, their manager images were inspected and had different digests, a version that
  -- the inputs name is the one that was found, and the package is the inputs'.
  pub resolve_and_verify_upgrade_operator_inputs-IsUpgrade :
      (inputs resolved : UpgradeOperatorInputs) (w : W)
      → (resolve_and_verify_upgrade_operator_inputs tools inputs w).1 ≡ some resolved
      → IsUpgrade inputs resolved
  unfolding resolve_and_verify_upgrade_operator_inputs
  resolve_and_verify_upgrade_operator_inputs-IsUpgrade inputs resolved w h =
      let (pullspec, at, first) =
        and_then-some (baseline_bundle tools inputs.baseline_sbr w) (with_pullspec tools inputs)
          resolved h in
      with_pullspec-IsUpgrade inputs resolved pullspec
        (baseline_bundle tools inputs.baseline_sbr w).0 first
