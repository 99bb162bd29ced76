-- ===== src/Preservation/Fuel.antt =====
-- The recursion of `verifyPreservedValue` goes to values under the new one, so that it ends.
use mathlib.Core.Option.{some-injective}
use medik8s_system_tests.Base.{
  ℕ, zero, suc, ◌≡◌, ◌≢◌, ◌≤◌, ◌<◌, refl, ap, Bool, true, false, Option, none, some, arith, ◌==◌,
  nat_eq, if◌then◌else◌, Bool-cases, Option-cases, inl, inr,
}
use medik8s_system_tests.Go.Strings.{Text, text_eq}
use medik8s_system_tests.Preservation.Json.{
  Value, Elements, Entries, null, scalar, array, object, no_elements, element, no_entries, entry,
  find, deep_equal, size, size_elements, size_entries,
}
use medik8s_system_tests.Preservation.{
  Schema, Pointer, Fault, changed, removed, added, bad_default, exhausted, schema, nil, to,
  then_check, is_some, find_property, configuration_property_schema, item_schema, len, verify_items,
  verify_actual, verify_kept, verify_expected, verify_declared, verify_addition, verify_added,
  verify_preserved_map, verify_kind, verify_preserved_value,
}

pub size-positive : (value : Value) → 0 < size value
unfolding size
size-positive null = omega arith
size-positive (scalar s) = omega arith
size-positive (array values) = omega arith
size-positive (object map) = omega arith

pub size-find :
    (key : Text) (y : Value) (ys : Entries) → find key ys ≡ some y → size y ≤ size_entries ys
unfolding find size
size-find key y no_entries = λ h. absurd (ground (arith, h))
size-find key y (entry other x ys) = elim (Bool-cases (other == key)) [
  | inl e ↦
      rw e (λ h. let much : size x ≡ size y = ap size (some-injective x y h) in omega (arith, much))
  | inr e ↦ rw e (λ h. omega (arith, size-find key y ys h))
]

abbrev is_exhausted : Option Fault → Bool
is_exhausted (some exhausted) = true
is_exhausted _ = false

-- A check that ends.
abbrev pub Ends : Option Fault → Type 0
Ends verdict = verdict ≢ some exhausted

Ends-none : Ends none
Ends-none h = let no : false ≡ true = ap is_exhausted h in absurd (ground (arith, no))

Ends-fault : (fault : Fault) → is_exhausted (some fault) ≡ false → Ends (some fault)
Ends-fault fault e h =
    let no : is_exhausted (some fault) ≡ true = ap is_exhausted h in absurd (ground (arith, e, no))

Ends-then_check : (a b : Option Fault) → Ends a → Ends b → Ends (then_check a b)
unfolding then_check
Ends-then_check none b h k = k
Ends-then_check (some fault) b h k = h

module _ (decode : Text → Option Value) where
  module _ (fuel : ℕ) (verify : (before after : Value) → Pointer → Option Fault)
      (ends : (before after : Value) (s : Pointer)
        → size after ≤ fuel
        → Ends (verify before after s)) where
    verify_items-Ends :
        (xs ys : Elements) (s : Pointer)
        → size_elements ys ≤ fuel
        → Ends (verify_items decode verify xs ys s)
    unfolding verify_items size
    verify_items-Ends no_elements ys s fits = Ends-none
    verify_items-Ends (element x xs) no_elements s fits = Ends-none
    verify_items-Ends (element x xs) (element y ys) s fits =
        Ends-then_check (verify x y s) (verify_items decode verify xs ys s)
          (ends x y s (omega (arith, fits))) (verify_items-Ends xs ys s (omega (arith, fits)))

    verify_actual-Ends :
        (key : Text) (x : Value) (ys : Entries) (s : Pointer)
        → size_entries ys ≤ fuel
        → Ends (verify_actual decode verify key x (find key ys) s)
    unfolding verify_actual
    verify_actual-Ends key x ys s fits = elim (Option-cases (find key ys)) [
      | inl e ↦ rw e (Ends-fault (removed key) refl)
      | inr (y, e) ↦ rw e (
          ends x y (configuration_property_schema s key)
            (omega (arith, fits, size-find key y ys e)))
    ]

    verify_kept-Ends :
        (xs ys : Entries) (s : Pointer)
        → size_entries ys ≤ fuel
        → Ends (verify_kept decode verify xs ys s)
    unfolding verify_kept
    verify_kept-Ends no_entries ys s fits = Ends-none
    verify_kept-Ends (entry key x xs) ys s fits =
        Ends-then_check (verify_actual decode verify key x (find key ys) s)
          (verify_kept decode verify xs ys s) (verify_actual-Ends key x ys s fits)
          (verify_kept-Ends xs ys s fits)

    verify_expected-Ends :
        (key : Text) (y : Value) (p : Schema) (expected : Option Value)
        → size y ≤ fuel
        → Ends (verify_expected decode verify key y p expected)
    unfolding verify_expected
    verify_expected-Ends key y p none fits = Ends-fault (bad_default key) refl
    verify_expected-Ends key y p (some value) fits = ends value y (to p) fits

    verify_declared-Ends :
        (key : Text) (y : Value) (found : Option Schema)
        → size y ≤ fuel
        → Ends (verify_declared decode verify key y found)
    unfolding verify_declared
    verify_declared-Ends key y none fits = Ends-fault (added key) refl
    verify_declared-Ends key y (some (schema fields additional items none)) fits =
        Ends-fault (added key) refl
    verify_declared-Ends key y (some (schema fields additional items (some raw))) fits =
        verify_expected-Ends key y (schema fields additional items (some raw)) (decode raw) fits

    verify_addition-Ends :
        (key : Text) (y : Value) (s : Pointer)
        → size y ≤ fuel
        → Ends (verify_addition decode verify key y s)
    unfolding verify_addition
    verify_addition-Ends key y nil fits = Ends-fault (added key) refl
    verify_addition-Ends key y (to (schema fields additional items default)) fits =
        verify_declared-Ends key y (find_property key fields) fits

    verify_added-Ends :
        (xs ys : Entries) (s : Pointer)
        → size_entries ys ≤ fuel
        → Ends (verify_added decode verify xs ys s)
    unfolding verify_added size
    verify_added-Ends xs no_entries s fits = Ends-none
    verify_added-Ends xs (entry key y ys) s fits =
        Ends-then_check
          (if is_some (find key xs) then none else verify_addition decode verify key y s)
          (verify_added decode verify xs ys s)
          (elim (Bool-cases (is_some (find key xs))) [
            | inl e ↦ rw e Ends-none
            | inr e ↦ rw e (verify_addition-Ends key y s (omega (arith, fits)))
          ])
          (verify_added-Ends xs ys s (omega (arith, fits)))

    verify_kind-Ends :
        (before after : Value) (s : Pointer)
        → size after ≤ suc fuel
        → Ends (verify_kind decode verify before after s)
    unfolding verify_kind verify_preserved_map size
    verify_kind-Ends (object xs) (object ys) s fits =
        Ends-then_check (verify_kept decode verify xs ys s) (verify_added decode verify xs ys s)
          (verify_kept-Ends xs ys s (omega (arith, fits)))
          (verify_added-Ends xs ys s (omega (arith, fits)))
    verify_kind-Ends (array xs) (array ys) s fits = elim (Bool-cases (len ys == len xs)) [
      | inl e ↦ rw e (verify_items-Ends xs ys (item_schema s) (omega (arith, fits)))
      | inr e ↦ rw e (Ends-fault changed refl)
    ]
    verify_kind-Ends _ _ s fits = Ends-fault changed refl

  -- The recursion of `verifyPreservedValue` ends: as much fuel as there are values at and under the new one
  -- is enough.
  pub verify_preserved_value-Ends :
      (fuel : ℕ) (before after : Value) (s : Pointer)
      → size after ≤ fuel
      → Ends (verify_preserved_value decode fuel before after s)
  unfolding verify_preserved_value
  verify_preserved_value-Ends zero before after s fits =
      absurd (omega (arith, fits, size-positive after))
  verify_preserved_value-Ends (suc fuel) before after s fits =
      elim (Bool-cases (deep_equal before after)) [
        | inl e ↦ rw e Ends-none
        | inr e ↦ rw e (
            verify_kind-Ends fuel (verify_preserved_value decode fuel)
              (verify_preserved_value-Ends fuel) before after s fits)
      ]
