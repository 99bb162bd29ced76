-- ===== src/Preservation/Tests.antt =====
-- A configuration to which an upgrade adds a default.
use medik8s_system_tests.Base.{
  ◌≡◌, ◌≢◌, ◌↔◌, ◌≤◌, refl, subst, true, false, List, [], ◌∷◌, ◌++◌, Option, none, some, ◌==◌,
  if◌then◌else◌, Bool-cases, inl, inr, arith, Any,
}
use medik8s_system_tests.Go.Strings.{Text, codes, text_eq}
use medik8s_system_tests.Preservation.Json.{
  Value, Entries, null, scalar, object, characters, no_entries, entry, find, size, Keeps,
}
use medik8s_system_tests.Preservation.{
  Schema, schema, nil, to, nil_branch, no_properties, property, removed, added,
  verify_preserved_value,
}
use medik8s_system_tests.Preservation.Fuel.{Ends, verify_preserved_value-Ends}
use medik8s_system_tests.Preservation.Accepted.{Extends}
use medik8s_system_tests.Preservation.Accepted.Complete.{
  IsKeyed, DecodesKeyed, verify_preserved_value-Extends_iff,
}
use medik8s_system_tests.Preservation.Configuration.{
  Resource, Definition, client, found, configuration_spec_schema, verify_configuration_preserved,
}
use medik8s_system_tests.Preservation.Configuration.Kept.{verify_configuration_preserved-Keeps}
use medik8s_system_tests.Preservation.Configuration.Found.{
  Defines, configuration_spec_schema-Defines,
}

abbrev text : Text → Value
text t = scalar (characters t)

abbrev quoted : Text
quoted = 34 ∷ codes "30s" ++ (34 ∷ [])

-- The decoder, on the one default of the schema.
abbrev decode : Text → Option Value
decode raw = if raw == quoted then some (text (codes "30s")) else none

abbrev timeout : Schema
timeout = schema no_properties nil_branch nil_branch (some quoted)

abbrev spec_schema : Schema
spec_schema = schema (property (codes "timeout") timeout no_properties) nil_branch nil_branch none

abbrev spec : Entries
spec = entry (codes "interval") (text (codes "17m")) no_entries

abbrev current : Entries
current =
    entry (codes "timeout") (text (codes "30s"))
      (entry (codes "interval") (text (codes "17m")) no_entries)

abbrev resource : Resource
resource = record {
  uid = codes "u";
  is_deleted = false;
  group = codes "medik8s.io";
  version = codes "v1";
  kind = codes "Configuration";
  content = entry (codes "spec") (object current) no_entries;
}

abbrev crds : List Definition
crds =
    record {
      group = codes "medik8s.io";
      kind = codes "Configuration";
      versions =
          record {
            version_name = codes "v1";
            is_served = true;
            open_api_schema = to (
                schema (property (codes "spec") spec_schema no_properties) nil_branch nil_branch
                  none);
          }
          ∷ [];
    }
    ∷ []

is_accepted :
    verify_configuration_preserved decode (client (some crds)) resource (codes "u") spec ≡ none
unfolding verify_configuration_preserved
is_accepted = refl

-- Without the schema's default the addition is refused, and so is a setting that is gone.
is_added :
    verify_preserved_value decode 3 (object spec) (object current) nil
    ≡ some (added (codes "timeout"))
unfolding verify_preserved_value
is_added = refl

is_removed :
    verify_preserved_value decode 3 (object current) (object spec) (to spec_schema)
    ≡ some (removed (codes "timeout"))
unfolding verify_preserved_value
is_removed = refl

verify_configuration_preserved-Keeps_example :
    (resource.uid ≡ codes "u")
    × (codes "u" ≢ [])
    × (resource.is_deleted ≡ false)
    × (map : Entries) × (find (codes "spec") resource.content ≡ some (object map))
    × Keeps (object spec) (object map)
verify_configuration_preserved-Keeps_example =
    verify_configuration_preserved-Keeps decode (client (some crds)) resource (codes "u") spec
      is_accepted

text-IsKeyed : (t : Text) → IsKeyed (text t)
unfolding IsKeyed
text-IsKeyed t = tt

abbrev or_text : Option Value → Value
or_text none = null
or_text (some value) = value

decode-DecodesKeyed : DecodesKeyed decode
decode-DecodesKeyed raw value = elim (Bool-cases (raw == quoted)) [
  | inl e ↦ rw e (λ h. subst (λ o. IsKeyed (or_text o)) h (text-IsKeyed (codes "30s")))
  | inr e ↦ rw e (λ h. absurd (ground (arith, h)))
]

spec-IsKeyed : IsKeyed (object spec)
unfolding IsKeyed
spec-IsKeyed = (refl, tt, tt)

current-IsKeyed : IsKeyed (object current)
unfolding IsKeyed
current-IsKeyed = (refl, tt, (refl, tt, tt))

fits : size (object current) ≤ 3
unfolding size
fits = omega arith

verify_preserved_value-Extends_iff_example :
    (verify_preserved_value decode 3 (object spec) (object current) (to spec_schema) ≡ none)
    ↔ Extends decode (object spec) (object current) (to spec_schema)
verify_preserved_value-Extends_iff_example =
    verify_preserved_value-Extends_iff decode decode-DecodesKeyed 3 (object spec) (object current)
      (to spec_schema) fits spec-IsKeyed current-IsKeyed

verify_preserved_value-Ends_example :
    Ends (verify_preserved_value decode 3 (object spec) (object current) (to spec_schema))
verify_preserved_value-Ends_example =
    verify_preserved_value-Ends decode 3 (object spec) (object current) (to spec_schema) fits

is_found : configuration_spec_schema (client (some crds)) resource ≡ found spec_schema
unfolding configuration_spec_schema
is_found = refl

configuration_spec_schema-Defines_example :
    (listed : List Definition) × (client (some crds) ≡ client (some listed))
    × Any (Defines resource spec_schema) listed
configuration_spec_schema-Defines_example =
    configuration_spec_schema-Defines (client (some crds)) resource spec_schema is_found
