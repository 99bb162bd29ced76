-- ===== src/Preservation/Configuration/Found.antt =====
-- Where the schema comes from by which additions are judged.
use medik8s_system_tests.Base.{
  ◌≡◌, ◌⊎◌, refl, true, not, ◌||◌, List, [], ◌∷◌, Option, none, some, ◌==◌, arith, Bool-cases, inl,
  inr, Any,
}
use medik8s_system_tests.Go.Strings.{Text, text_eq, text_beq_iff}
use medik8s_system_tests.Preservation.{Schema}
use medik8s_system_tests.Preservation.Configuration.{
  Resource, Version, Definition, Client, no_client, client, found, spec_of, or_later, find_version,
  find_definition, or_no_schema, among, configuration_spec_schema,
}

-- A served version of the name, with this schema for the spec.
abbrev pub Serves : (version : Text) → Schema → Version → Type 0
Serves version s candidate =
    (candidate.version_name ≡ version)
    × (candidate.is_served ≡ true)
    × (spec_of candidate.open_api_schema ≡ some s)

abbrev pub Defines : Resource → Schema → Definition → Type 0
Defines resource s crd =
    (crd.group ≡ resource.group)
    × (crd.kind ≡ resource.kind)
    × Any (Serves resource.version s) crd.versions

or_later-some :
    (o later : Option Schema) (s : Schema)
    → or_later o later ≡ some s
    → (o ≡ some s) ⊎ (later ≡ some s)
or_later-some none later s h = inr h
or_later-some (some t) later s h = inl h

find_version-Serves :
    (version : Text) (versions : List Version) (s : Schema)
    → find_version version versions ≡ some s
    → Any (Serves version s) versions
unfolding find_version
find_version-Serves version [] s = λ h. absurd (ground (arith, h))
find_version-Serves version (candidate ∷ versions) s =
    elim (Bool-cases (not (candidate.version_name == version) || not candidate.is_served)) [
      | inl e ↦ rw e (λ h. inr (find_version-Serves version versions s h))
      | inr e ↦ rw e (λ h.
          let named : (candidate.version_name == version) ≡ true = ground (arith, e) in
          let served : candidate.is_served ≡ true = ground (arith, e) in
          elim (or_later-some (spec_of candidate.open_api_schema) (find_version version versions) s
            h) [
              | inl at ↦ inl ((text_beq_iff candidate.version_name version).0 named, served, at)
              | inr later ↦ inr (find_version-Serves version versions s later)
            ])
    ]

find_definition-Defines :
    (resource : Resource) (crds : List Definition) (s : Schema)
    → find_definition resource crds ≡ some s
    → Any (Defines resource s) crds
unfolding find_definition
find_definition-Defines resource [] s = λ h. absurd (ground (arith, h))
find_definition-Defines resource (crd ∷ crds) s =
    elim (Bool-cases (not (crd.group == resource.group) || not (crd.kind == resource.kind))) [
      | inl e ↦ rw e (λ h. inr (find_definition-Defines resource crds s h))
      | inr e ↦ rw e (λ h.
          let group : (crd.group == resource.group) ≡ true = ground (arith, e) in
          let kind : (crd.kind == resource.kind) ≡ true = ground (arith, e) in
          elim (or_later-some (find_version resource.version crd.versions)
            (find_definition resource crds) s h) [
              | inl at ↦ inl (
                (text_beq_iff crd.group resource.group).0 group,
                (text_beq_iff crd.kind resource.kind).0 kind,
                find_version-Serves resource.version crd.versions s at,
              )
              | inr later ↦ inr (find_definition-Defines resource crds s later)
            ])
    ]

or_no_schema-found : (o : Option Schema) (s : Schema) → or_no_schema o ≡ found s → o ≡ some s
or_no_schema-found none s h = absurd (cc)
or_no_schema-found (some t) s h = cc

-- The schema that `configurationSpecSchema` returns is the one for the spec in a served version, of the
-- resource's version, of a definition with the resource's group and kind that the client lists.
pub configuration_spec_schema-Defines :
    (api_client : Client) (resource : Resource) (s : Schema)
    → configuration_spec_schema api_client resource ≡ found s
    → (crds : List Definition) × (api_client ≡ client (some crds)) × Any (Defines resource s) crds
unfolding configuration_spec_schema
configuration_spec_schema-Defines api_client resource s =
    elim (Bool-cases (resource.group == [] || (resource.version == [] || resource.kind == []))) [
      | inl e ↦ rw e (λ h. absurd (cc))
      | inr e ↦ rw e (of_client api_client)
    ]
  where
    of_client :
        (api_client : Client)
        → among resource api_client ≡ found s
        → (crds : List Definition) × (api_client ≡ client (some crds))
          × Any (Defines resource s) crds
    of_client no_client h = absurd (cc)
    of_client (client none) h = absurd (cc)
    of_client (client (some crds)) h = (
      crds,
      refl,
      find_definition-Defines resource crds s
          (or_no_schema-found (find_definition resource crds) s h),
    )
