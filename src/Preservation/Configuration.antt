-- ===== src/Preservation/Configuration.antt =====
-- `VerifyConfigurationPreserved` and `configurationSpecSchema`.
pub mod Kept
pub mod Found
use medik8s_system_tests.Base.{
  ◌≡◌, ◌≢◌, refl, sym, ap, ◌∙◌, Bool, true, false, not, ◌&&◌, ◌||◌, List, [], ◌∷◌, Option, none,
  some, ◌==◌, arith, if◌then◌else◌, Bool-cases, Option-cases, inl, inr,
}
use medik8s_system_tests.Go.Strings.{Text, codes, text_eq, text_beq_iff}
use medik8s_system_tests.Preservation.Json.{
  Value, Entries, null, scalar, array, object, find, deep_equal, size, Keeps,
}
use medik8s_system_tests.Preservation.{
  Schema, Pointer, Properties, schema, nil, to, Fault, replaced, missing_spec, bad_spec,
  no_identity, unreadable_crds, no_schema, find_property, verify_preserved_value,
}
use medik8s_system_tests.Preservation.Settings.{deep_equal-Keeps, verify_preserved_value-Keeps}

-- What the source reads of a custom resource: `uid` is empty where it has none, the group, the version and
-- the kind are what `GroupVersionKind` gives.
pub record Resource : Type 0 where
  pub uid : Text
  pub is_deleted : Bool
  pub group : Text
  pub version : Text
  pub kind : Text
  pub content : Entries

pub record Version : Type 0 where
  pub version_name : Text
  pub is_served : Bool
  pub open_api_schema : Pointer

pub record Definition : Type 0 where
  pub group : Text
  pub kind : Text
  pub versions : List Version

-- A client, which may be nil, by what it lists, or that it fails to.
pub data Client : Type 0 where
  no_client : Client
  client : (listed : Option (List Definition)) → Client

pub data Looked (A : Type 0) : Type 0 where
  failed : Fault → Looked A
  found : A → Looked A

abbrev pub spec_of : Pointer → Option Schema
spec_of nil = none
spec_of (to (schema fields additional items default)) = find_property (codes "spec") fields

abbrev pub or_later : Option Schema → Option Schema → Option Schema
or_later none later = later
or_later (some s) later = some s

-- The loop over the versions of a definition.
unfoldable pub find_version : (version : Text) → List Version → Option Schema
unfolding find_property
find_version version [] = none
find_version version (candidate ∷ versions) =
    let later = find_version version versions in
    let here = or_later (spec_of candidate.open_api_schema) later in
    if not (candidate.version_name == version) || not candidate.is_served then later else here

unfoldable pub find_definition : Resource → List Definition → Option Schema
unfolding find_version
find_definition resource [] = none
find_definition resource (crd ∷ crds) =
    let later = find_definition resource crds in
    let here = or_later (find_version resource.version crd.versions) later in
    if not (crd.group == resource.group) || not (crd.kind == resource.kind) then later else here

abbrev pub or_no_schema : Option Schema → Looked Schema
or_no_schema none = failed no_schema
or_no_schema (some s) = found s

abbrev pub among : Resource → Client → Looked Schema
among resource no_client = failed no_identity
among resource (client none) = failed unreadable_crds
among resource (client (some crds)) = or_no_schema (find_definition resource crds)

-- `configurationSpecSchema`
unfoldable pub configuration_spec_schema : Client → Resource → Looked Schema
unfolding find_definition
configuration_spec_schema api_client resource =
    if resource.group == [] || (resource.version == [] || resource.kind == [])
    then failed no_identity
    else among resource api_client

-- `unstructured.NestedMap(object.Object, "spec")`
abbrev pub as_map : Option Value → Looked Entries
as_map none = failed missing_spec
as_map (some (object entries)) = found entries
as_map (some _) = failed bad_spec

unfoldable pub nested_spec : Entries → Looked Entries
unfolding find
nested_spec content = as_map (find (codes "spec") content)

module _ (decode : Text → Option Value) where
  unfoldable pub verify_by_schema : (spec current : Entries) → Looked Schema → Option Fault
  unfolding verify_preserved_value size
  verify_by_schema spec current (failed fault) = some fault
  verify_by_schema spec current (found s) =
      verify_preserved_value decode (size (object current)) (object spec) (object current) (to s)

  unfoldable pub verify_spec : Client → Resource → (spec : Entries) → Looked Entries → Option Fault
  unfolding verify_by_schema configuration_spec_schema deep_equal
  verify_spec api_client resource spec (failed fault) = some fault
  verify_spec api_client resource spec (found current) =
      if deep_equal (object spec) (object current)
      then none
      else verify_by_schema spec current (configuration_spec_schema api_client resource)

  -- `VerifyConfigurationPreserved`
  unfoldable pub verify_configuration_preserved :
      Client → Resource → (uid : Text) → (spec : Entries) → Option Fault
  unfolding verify_spec nested_spec
  verify_configuration_preserved api_client resource uid spec =
      if uid == [] || (not (resource.uid == uid) || resource.is_deleted)
      then some replaced
      else verify_spec api_client resource spec (nested_spec resource.content)
