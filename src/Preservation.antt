-- ===== src/Preservation.antt =====
-- tests/internal/helpers/configuration_preservation.go: whether an upgrade has kept the settings of a
-- configuration, and added defaults only. The JSON decoder and what the client lists are parameters.
pub mod Json
pub mod Settings
pub mod Fuel
pub mod Accepted
pub mod Configuration
mod Tests
use medik8s_system_tests.Base.{
  ℕ, zero, suc, ◌+◌, Bool, true, false, not, ◌&&◌, ◌||◌, List, [], ◌∷◌, Option, none, some, ◌==◌,
  nat_eq, if◌then◌else◌,
}
use medik8s_system_tests.Go.Strings.{Text, codes, text_eq}
use medik8s_system_tests.Preservation.Json.{
  Value, Elements, Entries, null, scalar, array, object, no_elements, element, no_entries, entry,
  find, deep_equal,
}

-- What the source reads of `JSONSchemaProps`. A pointer to one may be nil; of `AdditionalProperties` and
-- of `Items` the source reads the field `Schema`.
mutual
  pub data Schema : Type 0 where
    schema :
        Properties → (additional_properties items : Branch) → (default_raw : Option Text) → Schema

  pub data Pointer : Type 0 where
    nil : Pointer
    to : Schema → Pointer

  pub data Branch : Type 0 where
    nil_branch : Branch
    branch : (its_schema : Pointer) → Branch

  pub data Properties : Type 0 where
    no_properties : Properties
    property : (key : Text) → Schema → Properties → Properties

pub data Fault : Type 0 where
  replaced missing_spec bad_spec no_identity unreadable_crds no_schema changed : Fault
  removed added bad_default : (key : Text) → Fault
  exhausted : Fault

unfoldable pub find_property : (key : Text) → Properties → Option Schema
find_property key no_properties = none
find_property key (property other s properties) =
    let later = find_property key properties in if other == key then some s else later

abbrev pub branch_schema : Branch → Pointer
branch_schema nil_branch = nil
branch_schema (branch s) = s

abbrev pub or_additional : Branch → Option Schema → Pointer
or_additional additional (some s) = to s
or_additional additional none = branch_schema additional

-- `configurationPropertySchema`
unfoldable pub configuration_property_schema : Pointer → (key : Text) → Pointer
unfolding find_property
configuration_property_schema nil key = nil
configuration_property_schema (to (schema fields additional items default)) key =
    or_additional additional (find_property key fields)

unfoldable pub item_schema : Pointer → Pointer
item_schema nil = nil
item_schema (to (schema fields additional items default)) = branch_schema items

unfoldable pub len : Elements → ℕ
len no_elements = 0
len (element value values) = suc (len values)

-- What follows a check that finds no fault.
unfoldable pub then_check : Option Fault → Option Fault → Option Fault
then_check none next = next
then_check (some fault) next = some fault

abbrev pub is_some : Option Value → Bool
is_some none = false
is_some (some value) = true

-- `decode` is `json.Unmarshal` into an `interface{}`.
module _ (decode : Text → Option Value) where
  -- The bodies that call `verifyPreservedValue`, which is `verify` here.
  module _ (verify : (before after : Value) → Pointer → Option Fault) where
    unfoldable pub verify_items : (original current : Elements) → Pointer → Option Fault
    unfolding then_check
    verify_items (element value original) (element actual current) s =
        then_check (verify value actual s) (verify_items original current s)
    verify_items _ _ s = none

    unfoldable pub verify_actual : (key : Text) → Value → Option Value → Pointer → Option Fault
    unfolding configuration_property_schema
    verify_actual key value none s = some (removed key)
    verify_actual key value (some actual) s =
        verify value actual (configuration_property_schema s key)

    -- The loop over the entries of the original.
    unfoldable pub verify_kept : (before after : Entries) → Pointer → Option Fault
    unfolding verify_actual then_check find
    verify_kept no_entries after s = none
    verify_kept (entry key value before) after s =
        then_check (verify_actual key value (find key after) s) (verify_kept before after s)

    unfoldable pub verify_expected :
        (key : Text) → Value → Schema → (expected : Option Value) → Option Fault
    verify_expected key value s none = some (bad_default key)
    verify_expected key value s (some expected) = verify expected value (to s)

    unfoldable pub verify_declared : (key : Text) → Value → Option Schema → Option Fault
    unfolding verify_expected
    verify_declared key value none = some (added key)
    verify_declared key value (some (schema fields additional items none)) = some (added key)
    verify_declared key value (some (schema fields additional items (some raw))) =
        verify_expected key value (schema fields additional items (some raw)) (decode raw)

    unfoldable pub verify_addition : (key : Text) → Value → Pointer → Option Fault
    unfolding verify_declared find_property
    verify_addition key value nil = some (added key)
    verify_addition key value (to (schema fields additional items default)) =
        verify_declared key value (find_property key fields)

    -- The loop over the entries of what there is.
    unfoldable pub verify_added : (before after : Entries) → Pointer → Option Fault
    unfolding verify_addition then_check find
    verify_added before no_entries s = none
    verify_added before (entry key value after) s =
        let this = verify_addition key value s in
        then_check (if is_some (find key before) then none else this) (verify_added before after s)

    -- `verifyPreservedMap`
    unfoldable pub verify_preserved_map : (before after : Entries) → Pointer → Option Fault
    unfolding verify_kept verify_added then_check
    verify_preserved_map before after s =
        then_check (verify_kept before after s) (verify_added before after s)

    unfoldable pub verify_kind : (before after : Value) → Pointer → Option Fault
    unfolding verify_preserved_map verify_items item_schema len
    verify_kind (object original) (object current) s = verify_preserved_map original current s
    verify_kind (array original) (array current) s =
        let each = verify_items original current (item_schema s) in
        if not (len current == len original) then some changed else each
    verify_kind _ _ s = some changed

  -- `verifyPreservedValue`
  unfoldable pub verify_preserved_value : (fuel : ℕ) (before after : Value) → Pointer → Option Fault
  unfolding verify_kind deep_equal
  verify_preserved_value zero before after s = some exhausted
  verify_preserved_value (suc fuel) before after s =
      if deep_equal before after
      then none
      else verify_kind (verify_preserved_value fuel) before after s
