-- ===== src/Preservation/Accepted.antt =====
-- What `verifyPreservedValue` accepts, said without its loops.
pub mod Sound
pub mod Complete
use medik8s_system_tests.Base.{ℕ, ◌≡◌, ◌≢◌, true, Option, none, some}
use medik8s_system_tests.Go.Strings.{Text}
use medik8s_system_tests.Preservation.Json.{
  Value, Elements, Entries, array, object, find, nth, deep_equal,
}
use medik8s_system_tests.Preservation.{
  Pointer, Schema, schema, nil, to, find_property, configuration_property_schema, item_schema, len,
}

-- The property that a schema declares for a key.
unfoldable pub declared : Pointer → (key : Text) → Option Schema
unfolding find_property
declared nil key = none
declared (to (schema fields additional items default)) key = find_property key fields

abbrev pub decoded : (Text → Option Value) → Option Text → Option Value
decoded decode none = none
decoded decode (some raw) = decode raw

-- The default of a property.
unfoldable pub default_value : (Text → Option Value) → Schema → Option Value
default_value decode (schema fields additional items default) = decoded decode default

-- The new value has all that the old one has, and what is new in a map is the default of a property,
-- extended by defaults in turn.
pub data Extends (decode : Text → Option Value) : (before after : Value) → Pointer → Type 0 where
  by_equality :
      (before after : Value) (s : Pointer)
      → deep_equal before after ≡ true
      → Extends decode before after s
  by_elements :
      (xs ys : Elements) (s : Pointer)
      → len ys ≡ len xs
      → ((n : ℕ) (x y : Value)
          → nth n xs ≡ some x
          → nth n ys ≡ some y
          → Extends decode x y (item_schema s))
      → Extends decode (array xs) (array ys) s
  by_entries :
      (xs ys : Entries) (s : Pointer)
      → ((key : Text) (x : Value) → find key xs ≡ some x → (y : Value) × (find key ys ≡ some y))
      → ((key : Text) (x y : Value)
          → find key xs ≡ some x
          → find key ys ≡ some y
          → Extends decode x y (configuration_property_schema s key))
      → ((key : Text) (y : Value)
          → find key xs ≡ none
          → find key ys ≡ some y
          → (p : Schema) × (expected : Value) × (declared s key ≡ some p)
            × (default_value decode p ≡ some expected))
      → ((key : Text) (y : Value) (p : Schema) (expected : Value)
          → find key xs ≡ none
          → find key ys ≡ some y
          → declared s key ≡ some p
          → default_value decode p ≡ some expected
          → Extends decode expected y (to p))
      → Extends decode (object xs) (object ys) s
