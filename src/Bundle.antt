-- ===== src/Bundle.antt =====
-- tests/sbr-operator/internal/sbrutils/bundle_inspection.go: the bundles of an upgrade.
pub mod Tags
pub mod Latest
pub mod Inspect
pub mod Upgrade
mod Tests
use medik8s_system_tests.Base.{
  ℕ, ◌+◌, Bool, true, false, not, ◌&&◌, ◌||◌, List, [], ◌∷◌, ◌++◌, Option, none, some,
  if◌then◌else◌, ◌==◌, nat_eq, reverse,
}
use medik8s_system_tests.Go.Strings.{Text, codes, text_eq, has_prefix, split}
use medik8s_system_tests.Bundle.Tags.{latest_ga_bundle}

pub record InspectedBundle : Type 0 where
  pub pullspec : Text
  pub package_name : Text
  pub version : Text
  pub manager_image : Text

pub record Container : Type 0 where
  pub name : Text
  pub image : Text

-- `bundleCSV`; a deployment is the list of its containers, and a key that a map has not gives the empty
-- text.
pub record BundleCsv : Type 0 where
  pub annotations : Text → Text
  pub version : Text
  pub deployments : List (List Container)

pub record OperatorArtifact : Type 0 where
  pub bundle : Text
  pub version : Text
  pub image : Text

-- What the source reads of its inputs.
pub record UpgradeOperatorInputs : Type 0 where
  pub baseline_sbr : OperatorArtifact
  pub candidate_sbr : OperatorArtifact
  pub package_name : Text

pub record FreshInstallInputs : Type 0 where
  pub candidate_sbr : OperatorArtifact
  pub package_name : Text

-- What the code runs on. `run_command` gives the output of a command or, when it fails, nothing;
-- `mkdir_temp` a new directory; the decoders are those of JSON and YAML.
pub record Tools (W : Type 0) : Type 0 where
  pub run_command : List Text → W → W × Option Text
  pub mkdir_temp : W → W × Option Text
  pub mkdir_all : Text → W → W × Option (Unit {0})
  pub remove_tree : Text → W → W
  pub glob : Text → W → Option (List Text)
  pub read_file : Text → W → Option Text
  pub join : Text → Text → Text
  pub decode_tags : Text → Option (List Text)
  pub decode_digest : Text → Option Text
  pub decode_csv : Text → Option BundleCsv
  pub decode_annotations : Text → Option (Text → Text)

abbrev pub baseline_repository : Text
baseline_repository =
    codes "registry.redhat.io/workload-availability/storage-based-remediation-operator-bundle"

-- A step that may fail.
abbrev pub Action : (W A : Type 0) → Type 0
Action W A = W → W × Option A

unfoldable pub and_then : {W A B : Type 0} → W × Option A → (A → Action W B) → W × Option B
and_then (w, none) next = (w, none)
and_then (w, some a) next = next a w

-- What stands before the first `@`.
abbrev pub first_part : List Text → Text
first_part [] = []
first_part (part ∷ parts) = part

-- The text before the last colon, if it has one behind the last slash.
unfoldable pub cut_tag : (reversed : Text) → Option Text
cut_tag [] = none
cut_tag (c ∷ reversed) =
    let later = cut_tag reversed in
    if c == 58 then some reversed else if c == 47 then none else later

abbrev pub or_whole : Text → Option Text → Text
or_whole repository none = repository
or_whole repository (some reversed) = reverse reversed

unfoldable pub repository_of : (pullspec : Text) → Text
unfolding split cut_tag
repository_of pullspec =
    let repository = first_part (split 64 pullspec) in
    or_whole repository (cut_tag (reverse repository))

-- The loop over the containers, with the manager's image so far; it fails on a second manager.
unfoldable pub find_in : List Container → (manager : Text) → Option Text
find_in [] manager = some manager
find_in (container ∷ containers) manager =
    let same = find_in containers manager in
    let taken = find_in containers container.image in
    if container.name == codes "manager"
    then (if not (manager == []) then none else taken)
    else same

abbrev pub and_in : Option Text → (Text → Option Text) → Option Text
and_in none next = none
and_in (some manager) next = next manager

unfoldable pub find_manager : List (List Container) → (manager : Text) → Option Text
unfolding find_in
find_manager [] manager = some manager
find_manager (deployment ∷ deployments) manager =
    and_in (find_in deployment manager) (find_manager deployments)

abbrev pub checked_manager : BundleCsv → Option Text → Option Text
checked_manager csv none = none
checked_manager csv (some manager) =
    if manager == [] || not (csv.annotations (codes "containerImage") == manager)
    then none
    else some manager

-- `verifyBundle`
unfoldable pub verify_bundle : InspectedBundle → (expected_package expected_version : Text) → Bool
verify_bundle bundle expected_package expected_version =
    bundle.package_name == expected_package
    && (expected_version == [] || bundle.version == expected_version)

-- `resolvedArtifact`
abbrev pub resolved_artifact : InspectedBundle → OperatorArtifact
resolved_artifact bundle = record {
  bundle = bundle.pullspec;
  version = bundle.version;
  image = bundle.manager_image;
}
