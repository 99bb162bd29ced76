-- ===== src/Preservation/Accepted/Sound.antt =====
-- What is accepted is extended by defaults only.
use mathlib.Core.Option.{some-injective}
use medik8s_system_tests.Base.{
  ℕ, zero, suc, ◌≡◌, refl, sym, ap, ◌∙◌, subst, Option, none, some, arith, ◌==◌, nat_eq,
  if◌then◌else◌, Bool-cases, Option-cases, inl, inr,
}
use medik8s_system_tests.Go.Strings.{Text, text_eq, text_beq_iff}
use medik8s_system_tests.Preservation.Json.{
  Value, Elements, Entries, array, object, no_elements, element, no_entries, entry, find, nth,
  deep_equal,
}
use medik8s_system_tests.Preservation.{
  Schema, Pointer, Fault, schema, nil, to, is_some, find_property, configuration_property_schema,
  item_schema, len, verify_items, verify_actual, verify_kept, verify_expected, verify_declared,
  verify_addition, verify_added, verify_preserved_map, verify_kind, verify_preserved_value,
}
use medik8s_system_tests.Preservation.Settings.{then_check-none}
use medik8s_system_tests.Preservation.Accepted.{
  declared, default_value, Extends, by_equality, by_elements, by_entries,
}

-- An entry of a map, or one behind it.
find-entry :
    (P : Text → Value → Type 0) (key : Text) (x : Value) (xs : Entries)
    → P key x
    → ((other : Text) (value : Value) → find other xs ≡ some value → P other value)
    → (other : Text) (value : Value) → find other (entry key x xs) ≡ some value
    → P other value
unfolding find
find-entry P key x xs here later other value = elim (Bool-cases (key == other)) [
  | inl e ↦ rw e (λ h.
      subst (λ k. P k value) ((text_beq_iff key other).0 e)
        (subst (P key) (some-injective x value h) here))
  | inr e ↦ rw e (later other value)
]

module _ (decode : Text → Option Value) where
  module _ (verify : (before after : Value) → Pointer → Option Fault)
      (sound : (before after : Value) (s : Pointer)
        → verify before after s ≡ none
        → Extends decode before after s) where
    verify_items-Extends :
        (xs ys : Elements) (s : Pointer)
        → verify_items decode verify xs ys s ≡ none
        → (n : ℕ) (x y : Value) → nth n xs ≡ some x
        → nth n ys ≡ some y
        → Extends decode x y s
    unfolding verify_items nth
    verify_items-Extends no_elements ys s h n x y at behind = absurd (ground (arith, at))
    verify_items-Extends (element u xs) no_elements s h n x y at behind =
        absurd (ground (arith, behind))
    verify_items-Extends (element u xs) (element v ys) s h zero x y at behind =
        let (here, later) = then_check-none (verify u v s) (verify_items decode verify xs ys s) h in
        subst (λ w. Extends decode w y s) (some-injective u x at)
          (subst (λ w. Extends decode u w s) (some-injective v y behind) (sound u v s here))
    verify_items-Extends (element u xs) (element v ys) s h (suc n) x y at behind =
        let (here, later) = then_check-none (verify u v s) (verify_items decode verify xs ys s) h in
        verify_items-Extends xs ys s later n x y at behind

    abbrev Kept : (after : Entries) → Pointer → Text → Value → Type 0
    Kept after s key x =
        (y : Value) × (find key after ≡ some y)
        × Extends decode x y (configuration_property_schema s key)

    verify_actual-Kept :
        (key : Text) (x : Value) (ys : Entries) (s : Pointer)
        → verify_actual decode verify key x (find key ys) s ≡ none
        → Kept ys s key x
    unfolding verify_actual
    verify_actual-Kept key x ys s = elim (Option-cases (find key ys)) [
      | inl e ↦ rw e (λ h. absurd (ground (arith, h)))
      | inr (y, e) ↦ rw e (λ h. (y, refl, sound x y (configuration_property_schema s key) h))
    ]

    verify_kept-Kept :
        (xs ys : Entries) (s : Pointer)
        → verify_kept decode verify xs ys s ≡ none
        → (key : Text) (x : Value) → find key xs ≡ some x
        → Kept ys s key x
    unfolding verify_kept
    verify_kept-Kept no_entries ys s h = λ key x at. absurd (unfold find in (ground (arith, at)))
    verify_kept-Kept (entry key x xs) ys s h =
        let (here, later) =
          then_check-none (verify_actual decode verify key x (find key ys) s)
            (verify_kept decode verify xs ys s) h in
        find-entry (Kept ys s) key x xs (verify_actual-Kept key x ys s here)
          (verify_kept-Kept xs ys s later)

    abbrev IsDefault : Pointer → Text → Value → Type 0
    IsDefault s key y =
        (p : Schema) × (expected : Value) × (declared s key ≡ some p)
        × (default_value decode p ≡ some expected)
        × Extends decode expected y (to p)

    verify_expected-Extends :
        (key : Text) (y : Value) (p : Schema) (expected : Option Value)
        → verify_expected decode verify key y p expected ≡ none
        → (value : Value) × (expected ≡ some value) × Extends decode value y (to p)
    unfolding verify_expected
    verify_expected-Extends key y p none h = absurd (ground (arith, h))
    verify_expected-Extends key y p (some value) h = (value, refl, sound value y (to p) h)

    verify_declared-Extends :
        (key : Text) (y : Value) (found : Option Schema)
        → verify_declared decode verify key y found ≡ none
        → (p : Schema) × (expected : Value) × (found ≡ some p)
          × (default_value decode p ≡ some expected)
          × Extends decode expected y (to p)
    unfolding verify_declared default_value
    verify_declared-Extends key y none h = absurd (ground (arith, h))
    verify_declared-Extends key y (some (schema fields additional items none)) h =
        absurd (ground (arith, h))
    verify_declared-Extends key y (some (schema fields additional items (some raw))) h =
        let p = schema fields additional items (some raw) in
        let (value, at, extends) = verify_expected-Extends key y p (decode raw) h in
        (p, value, refl, at, extends)

    verify_addition-IsDefault :
        (key : Text) (y : Value) (s : Pointer)
        → verify_addition decode verify key y s ≡ none
        → IsDefault s key y
    unfolding verify_addition declared
    verify_addition-IsDefault key y nil h = absurd (ground (arith, h))
    verify_addition-IsDefault key y (to (schema fields additional items default)) h =
        verify_declared-Extends key y (find_property key fields) h

    verify_added-IsDefault :
        (xs ys : Entries) (s : Pointer)
        → verify_added decode verify xs ys s ≡ none
        → (key : Text) (y : Value) → find key ys ≡ some y
        → find key xs ≡ none
        → IsDefault s key y
    unfolding verify_added
    verify_added-IsDefault xs no_entries s h =
        λ key y at. absurd (unfold find in (ground (arith, at)))
    verify_added-IsDefault xs (entry key y ys) s h =
        let (here, later) =
          then_check-none
            (if is_some (find key xs) then none else verify_addition decode verify key y s)
            (verify_added decode verify xs ys s) h in
        find-entry (λ k v. find k xs ≡ none → IsDefault s k v) key y ys
          (λ new. verify_addition-IsDefault key y s (
            sym (ap (λ o. if is_some o then none else verify_addition decode verify key y s) new)
            ∙ here))
          (verify_added-IsDefault xs ys s later)

    IsDefault-Extends :
        (s : Pointer) (key : Text) (y : Value) (p : Schema) (expected : Value)
        → IsDefault s key y
        → declared s key ≡ some p
        → default_value decode p ≡ some expected
        → Extends decode expected y (to p)
    IsDefault-Extends s key y p expected (other, value, d, v, extends) declares is =
        let same : other ≡ p = some-injective other p (sym d ∙ declares) in
        let alike : value ≡ expected =
          some-injective value expected (sym v ∙ ap (default_value decode) same ∙ is) in
        subst (λ w. Extends decode w y (to p)) alike
          (subst (λ q. Extends decode value y (to q)) same extends)

    verify_kind-Extends :
        (before after : Value) (s : Pointer)
        → verify_kind decode verify before after s ≡ none
        → Extends decode before after s
    unfolding verify_kind verify_preserved_map
    verify_kind-Extends (object xs) (object ys) s = λ h.
        let (keeps, adds) =
          then_check-none (verify_kept decode verify xs ys s) (verify_added decode verify xs ys s)
            h in
        let kept = verify_kept-Kept xs ys s keeps in
        let new = verify_added-IsDefault xs ys s adds in
        by_entries xs ys s (λ key x at. let (y, found, extends) = kept key x at in (y, found))
          (λ key x y at found.
            let (actual, there, extends) = kept key x at in
            subst (λ w. Extends decode x w (configuration_property_schema s key))
              (some-injective actual y (sym there ∙ found)) extends)
          (λ key y absent found.
            let (p, expected, d, v, extends) = new key y found absent in (p, expected, d, v))
          (λ key y p expected absent found d v.
            IsDefault-Extends s key y p expected (new key y found absent) d v)
    verify_kind-Extends (array xs) (array ys) s = elim (Bool-cases (len ys == len xs)) [
      | inl e ↦ rw e (λ h.
          by_elements xs ys s ((nat_eq.decides (len ys) (len xs)).0 e)
            (verify_items-Extends xs ys (item_schema s) h))
      | inr e ↦ rw e (λ h. absurd (ground (arith, h)))
    ]
    verify_kind-Extends _ _ s = λ h. absurd (ground (arith, h))

  -- When `verifyPreservedValue` finds no fault, the new value extends the old one by defaults only.
  pub verify_preserved_value-Extends :
      (fuel : ℕ) (before after : Value) (s : Pointer)
      → verify_preserved_value decode fuel before after s ≡ none
      → Extends decode before after s
  unfolding verify_preserved_value
  verify_preserved_value-Extends zero before after s = λ h. absurd (ground (arith, h))
  verify_preserved_value-Extends (suc fuel) before after s =
      elim (Bool-cases (deep_equal before after)) [
        | inl e ↦ rw e (λ h. by_equality before after s e)
        | inr e ↦ rw e (λ h.
            verify_kind-Extends (verify_preserved_value decode fuel)
              (verify_preserved_value-Extends fuel) before after s h)
      ]
