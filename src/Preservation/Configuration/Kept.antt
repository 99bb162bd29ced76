-- ===== src/Preservation/Configuration/Kept.antt =====
-- A configuration that is accepted is the one that was there, with its settings.
use medik8s_system_tests.Base.{
  ◌≡◌, ◌≢◌, refl, ap, true, false, not, ◌||◌, [], Option, none, some, ◌==◌, arith, Bool-cases, inl,
  inr,
}
use medik8s_system_tests.Go.Strings.{Text, codes, text_eq, text_beq_iff}
use medik8s_system_tests.Preservation.Json.{
  Value, Entries, null, scalar, array, object, find, deep_equal, size, Keeps,
}
use medik8s_system_tests.Preservation.{Schema, to}
use medik8s_system_tests.Preservation.Settings.{deep_equal-Keeps, verify_preserved_value-Keeps}
use medik8s_system_tests.Preservation.Configuration.{
  Resource, Client, Looked, failed, found, as_map, nested_spec, configuration_spec_schema,
  verify_by_schema, verify_spec, verify_configuration_preserved,
}

as_map-found :
    (held : Option Value) (current : Entries)
    → as_map held ≡ found current
    → held ≡ some (object current)
as_map-found none current h = absurd (cc)
as_map-found (some (object entries)) current h = ap some (ap object (entries_of-found h))
  where
    or_nothing : Looked Entries → Entries
    or_nothing (failed fault) = entries
    or_nothing (found map) = map

    entries_of-found : found entries ≡ found current → entries ≡ current
    entries_of-found e = ap or_nothing e
as_map-found (some null) current h = absurd (cc)
as_map-found (some (scalar s)) current h = absurd (cc)
as_map-found (some (array values)) current h = absurd (cc)

module _ (decode : Text → Option Value) where
  verify_by_schema-Keeps :
      (spec current : Entries) (looked : Looked Schema)
      → verify_by_schema decode spec current looked ≡ none
      → Keeps (object spec) (object current)
  unfolding verify_by_schema
  verify_by_schema-Keeps spec current (failed fault) h = absurd (ground (arith, h))
  verify_by_schema-Keeps spec current (found s) h =
      verify_preserved_value-Keeps decode (size (object current)) (object spec) (object current)
        (to s) h

  verify_spec-Keeps :
      (api_client : Client) (resource : Resource) (spec : Entries) (looked : Looked Entries)
      → verify_spec decode api_client resource spec looked ≡ none
      → (current : Entries) × (looked ≡ found current) × Keeps (object spec) (object current)
  unfolding verify_spec
  verify_spec-Keeps api_client resource spec (failed fault) = λ h. absurd (ground (arith, h))
  verify_spec-Keeps api_client resource spec (found current) =
      elim (Bool-cases (deep_equal (object spec) (object current))) [
        | inl e ↦ rw e (λ h. (current, refl, deep_equal-Keeps (object spec) (object current) e))
        | inr e ↦ rw e (λ h. (
          current,
          refl,
          verify_by_schema-Keeps spec current (configuration_spec_schema api_client resource) h,
        ))
      ]

  -- When `VerifyConfigurationPreserved` finds no fault, the resource has the expected UID, which is not
  -- empty, it is not being deleted, it has a map as its spec, and this holds each scalar of the expected
  -- spec at its path.
  pub verify_configuration_preserved-Keeps :
      (api_client : Client) (resource : Resource) (uid : Text) (spec : Entries)
      → verify_configuration_preserved decode api_client resource uid spec ≡ none
      → (resource.uid ≡ uid)
        × (uid ≢ [])
        × (resource.is_deleted ≡ false)
        × (current : Entries) × (find (codes "spec") resource.content ≡ some (object current))
        × Keeps (object spec) (object current)
  unfolding verify_configuration_preserved
  verify_configuration_preserved-Keeps api_client resource uid spec =
      elim (Bool-cases (uid == [] || (not (resource.uid == uid) || resource.is_deleted))) [
        | inl e ↦ rw e (λ h. absurd (ground (arith, h)))
        | inr e ↦ rw e (λ h.
            let (current, is, keeps) =
              verify_spec-Keeps api_client resource spec (nested_spec resource.content) h in
            let same : (resource.uid == uid) ≡ true = ground (arith, e) in
            let filled : (uid == []) ≡ false = ground (arith, e) in
            let kept : resource.is_deleted ≡ false = ground (arith, e) in
            (
              (text_beq_iff resource.uid uid).0 same,
              (λ empty.
                  let is_empty : (uid == []) ≡ true = (text_beq_iff uid []).1 empty in
                  absurd (ground (arith, filled, is_empty))),
              kept,
              current,
              as_map-found (find (codes "spec") resource.content) current
                  (unfold nested_spec in is),
              keeps,
            ))
      ]
