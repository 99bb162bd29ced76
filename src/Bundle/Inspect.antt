-- ===== src/Bundle/Inspect.antt =====
-- The functions that run commands, from `inspectImage` to `ResolveAndVerifyUpgradeOperatorInputs`. Of an
-- error it is only kept that there is one.
use medik8s_system_tests.Base.{
  Bool, true, false, not, List, [], ◌∷◌, ◌++◌, Option, none, some, if◌then◌else◌, ◌==◌,
}
use medik8s_system_tests.Go.Strings.{Text, codes, text_eq, has_prefix}
use medik8s_system_tests.Bundle.Tags.{latest_ga_bundle}
use medik8s_system_tests.Bundle.{
  InspectedBundle, BundleCsv, OperatorArtifact, UpgradeOperatorInputs, FreshInstallInputs, Tools,
  baseline_repository, Action, and_then, repository_of, find_manager, checked_manager,
  verify_bundle, resolved_artifact,
}

module _ {W : Type 0} (tools : Tools W) where
  abbrev checked_digest : Option Text → Action W Text
  checked_digest none w = (w, none)
  checked_digest (some digest) w =
      if has_prefix digest (codes "sha256:") then (w, some digest) else (w, none)

  -- `inspectImage`, of which the digest is used.
  unfoldable pub inspect_image : (pullspec : Text) → Action W Text
  unfolding and_then has_prefix
  inspect_image pullspec w =
      and_then
        (tools.run_command
          (codes "oc"
            ∷ codes "image"
            ∷ codes "info"
            ∷ codes "--filter-by-os=linux/amd64"
            ∷ pullspec
            ∷ codes "-o"
            ∷ codes "json"
            ∷ [])
          w)
        (λ output. checked_digest (tools.decode_digest output))

  abbrev only_path : Option (List Text) → Option Text
  only_path (some (path ∷ [])) = some path
  only_path _ = none

  abbrev read_csv : W → Option Text → Option BundleCsv
  read_csv w none = none
  read_csv w (some path) = elim (tools.read_file path w) [
    | none ↦ none
    | some content ↦ tools.decode_csv content
  ]

  abbrev read_annotations : W → Text → Option (Text → Text)
  read_annotations w path = elim (tools.read_file path w) [
    | none ↦ none
    | some content ↦ tools.decode_annotations content
  ]

  abbrev bundle_of :
      (resolved : Text)
      → BundleCsv
      → Option (Text → Text)
      → (manager : Option Text) → Option InspectedBundle
  bundle_of resolved csv (some annotations) (some manager) = some (record {
    pullspec = resolved;
    package_name = annotations (codes "operators.operatorframework.io.bundle.package.v1");
    version = csv.version;
    manager_image = manager;
  })
  bundle_of resolved csv _ _ = none

  abbrev read_bundle :
      (resolved : Text) → Option BundleCsv → Option (Text → Text) → Option InspectedBundle
  read_bundle resolved none annotations = none
  read_bundle resolved (some csv) annotations =
      bundle_of resolved csv annotations (checked_manager csv (find_manager csv.deployments []))

  -- What `oc image extract` leaves is read.
  unfoldable pub extract_bundle : (resolved manifests metadata : Text) → Action W InspectedBundle
  unfolding and_then find_manager
  extract_bundle resolved manifests metadata w =
      and_then
        (tools.run_command
          (codes "oc"
            ∷ codes "image"
            ∷ codes "extract"
            ∷ resolved
            ∷ codes "--path"
            ∷ (codes "/manifests/:" ++ manifests)
            ∷ codes "--path"
            ∷ (codes "/metadata/:" ++ metadata)
            ∷ codes "--confirm"
            ∷ [])
          w)
        (λ output u. (
          u,
          read_bundle resolved
              (read_csv u (
                only_path
                  (tools.glob (tools.join manifests (codes "*clusterserviceversion.yaml")) u)))
              (read_annotations u (tools.join metadata (codes "annotations.yaml"))),
        ))

  -- The deferred call of `os.RemoveAll`.
  abbrev then_remove : (dir : Text) → W × Option InspectedBundle → W × Option InspectedBundle
  then_remove dir (w, bundle) = (tools.remove_tree dir w, bundle)

  unfoldable pub inspect_in : (resolved dir : Text) → Action W InspectedBundle
  unfolding extract_bundle and_then
  inspect_in resolved dir w =
      let manifests = tools.join dir (codes "manifests") in
      let metadata = tools.join dir (codes "metadata") in
      then_remove dir (
        and_then (tools.mkdir_all manifests w) (λ made u.
          and_then (tools.mkdir_all metadata u)
            (λ made. extract_bundle resolved manifests metadata)))

  -- `inspectBundle`
  unfoldable pub inspect_bundle : (pullspec : Text) → Action W InspectedBundle
  unfolding inspect_image inspect_in repository_of and_then
  inspect_bundle pullspec w = and_then (inspect_image pullspec w) (λ digest u.
      and_then (tools.mkdir_temp u) (inspect_in (repository_of pullspec ++ (64 ∷ digest))))

  abbrev pub if_equal : (equal : Bool) → (wanted : Bool) → Action W (Unit {0})
  if_equal true true w = (w, some tt)
  if_equal false false w = (w, some tt)
  if_equal _ _ w = (w, none)

  -- `requireSameImage`
  unfoldable pub require_same_image : (actual expected : Text) → Action W (Unit {0})
  unfolding inspect_image and_then
  require_same_image actual expected w =
      and_then (inspect_image actual w)
        (λ first u. and_then (inspect_image expected u) (λ second. if_equal (first == second) true))

  -- `requireDifferentImage`
  unfoldable pub require_different_image : (baseline candidate : Text) → Action W (Unit {0})
  unfolding inspect_image and_then
  require_different_image baseline candidate w =
      and_then (inspect_image baseline w) (λ first u.
        and_then (inspect_image candidate u) (λ second. if_equal (first == second) false))

  abbrev pub return_bundle : InspectedBundle → Action W InspectedBundle
  return_bundle bundle w = (w, some bundle)

  unfoldable pub verified :
      (expected_package expected_version expected_image : Text)
      → InspectedBundle
      → Action W InspectedBundle
  unfolding require_same_image verify_bundle and_then
  verified expected_package expected_version expected_image bundle w =
      let checked =
        and_then (require_same_image bundle.manager_image expected_image w)
          (λ same. return_bundle bundle) in
      if not (verify_bundle bundle expected_package expected_version)
      then (w, none)
      else if not (expected_image == [])
      then checked
      else (w, some bundle)

  -- `inspectAndVerifyBundle`
  unfoldable pub inspect_and_verify_bundle :
      (pullspec expected_package expected_version expected_image : Text) → Action W InspectedBundle
  unfolding inspect_bundle verified and_then
  inspect_and_verify_bundle pullspec expected_package expected_version expected_image w =
      and_then (inspect_bundle pullspec w)
        (verified expected_package expected_version expected_image)

  abbrev among_tags : (repository : Text) → Option (List Text) → Action W Text
  among_tags repository none w = (w, none)
  among_tags repository (some tags) w = (w, latest_ga_bundle repository tags)

  -- `findLatestGABundle`
  unfoldable pub find_latest_ga_bundle : (repository : Text) → Action W Text
  unfolding latest_ga_bundle and_then
  find_latest_ga_bundle repository w =
      and_then
        (tools.run_command
          (codes "skopeo" ∷ codes "list-tags" ∷ (codes "docker://" ++ repository) ∷ []) w)
        (λ output. among_tags repository (tools.decode_tags output))

  unfoldable pub baseline_bundle : OperatorArtifact → Action W Text
  unfolding find_latest_ga_bundle
  baseline_bundle artifact w =
      let discovered = find_latest_ga_bundle baseline_repository w in
      if artifact.bundle == [] then discovered else (w, some artifact.bundle)

  abbrev pub resolve_to :
      UpgradeOperatorInputs
      → (baseline candidate : InspectedBundle) → Unit {0}
      → Action W UpgradeOperatorInputs
  resolve_to inputs baseline candidate done w = (
    w,
    some (record inputs {
      baseline_sbr = resolved_artifact baseline;
      candidate_sbr = resolved_artifact candidate;
    }),
  )

  unfoldable pub compare_bundles :
      UpgradeOperatorInputs
      → (baseline candidate : InspectedBundle) → Action W UpgradeOperatorInputs
  unfolding require_different_image and_then
  compare_bundles inputs baseline candidate w =
      let differ =
        and_then (require_different_image baseline.manager_image candidate.manager_image w)
          (resolve_to inputs baseline candidate) in
      if baseline.version == candidate.version then (w, none) else differ

  unfoldable pub with_baseline :
      UpgradeOperatorInputs → (baseline : InspectedBundle) → Action W UpgradeOperatorInputs
  unfolding inspect_and_verify_bundle compare_bundles and_then
  with_baseline inputs baseline w =
      and_then
        (inspect_and_verify_bundle inputs.candidate_sbr.bundle inputs.package_name
          inputs.candidate_sbr.version inputs.candidate_sbr.image w)
        (compare_bundles inputs baseline)

  unfoldable pub with_pullspec :
      UpgradeOperatorInputs → (pullspec : Text) → Action W UpgradeOperatorInputs
  unfolding inspect_and_verify_bundle with_baseline and_then
  with_pullspec inputs pullspec w =
      and_then
        (inspect_and_verify_bundle pullspec inputs.package_name inputs.baseline_sbr.version
          inputs.baseline_sbr.image w)
        (with_baseline inputs)

  -- `ResolveAndVerifyUpgradeOperatorInputs`
  unfoldable pub resolve_and_verify_upgrade_operator_inputs :
      UpgradeOperatorInputs → Action W UpgradeOperatorInputs
  unfolding baseline_bundle with_pullspec and_then
  resolve_and_verify_upgrade_operator_inputs inputs w =
      and_then (baseline_bundle inputs.baseline_sbr w) (with_pullspec inputs)

  abbrev resolved_install : FreshInstallInputs → InspectedBundle → Action W FreshInstallInputs
  resolved_install inputs candidate w =
      (w, some (record inputs { candidate_sbr = resolved_artifact candidate }))

  -- `ResolveAndVerifyFreshInstallInputs`
  unfoldable pub resolve_and_verify_fresh_install_inputs :
      FreshInstallInputs → Action W FreshInstallInputs
  unfolding inspect_and_verify_bundle and_then
  resolve_and_verify_fresh_install_inputs inputs w =
      and_then
        (inspect_and_verify_bundle inputs.candidate_sbr.bundle inputs.package_name
          inputs.candidate_sbr.version inputs.candidate_sbr.image w)
        (resolved_install inputs)
