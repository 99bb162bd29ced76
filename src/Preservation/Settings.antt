-- ===== src/Preservation/Settings.antt =====
-- Whatever was set is still set.
use mathlib.Core.Option.{some-injective}
use medik8s_system_tests.Base.{
  ℕ, zero, suc, ◌≡◌, ◌≢◌, refl, ap, subst, Bool, true, false, ◌&&◌, Option, none, some, arith, ◌==◌,
  nat_eq, Bool-cases, Option-cases, inl, inr,
}
use medik8s_system_tests.Go.Strings.{Text, text_eq, text_beq_iff}
use medik8s_system_tests.Preservation.Json.{
  Value, Elements, Entries, Scalar, null, scalar, array, object, no_elements, element, no_entries,
  entry, find, nth, count, deep_equal, equal_elements, equal_entries, holds, same_scalar-eq, Step,
  at_key, at_index, child, Keeps, Keeps-same, Keeps-children,
}
use medik8s_system_tests.Preservation.{
  Pointer, Fault, then_check, configuration_property_schema, item_schema, len, verify_items,
  verify_actual, verify_kept, verify_added, verify_preserved_map, verify_kind,
  verify_preserved_value,
}

-- What is found in the one is found in the other, with the same scalars.
abbrev Found : (before after : Entries) → Type 0
Found before after =
    (key : Text) (value : Value)
    → find key before ≡ some value
    → (actual : Value) × (find key after ≡ some actual) × Keeps value actual

abbrev Indexed : (before after : Elements) → Type 0
Indexed before after =
    (n : ℕ) (value : Value)
    → nth n before ≡ some value
    → (actual : Value) × (nth n after ≡ some actual) × Keeps value actual

abbrev is_scalar : Value → Bool
is_scalar (scalar s) = true
is_scalar _ = false

compound : (value : Value) → is_scalar value ≡ false → (s : Scalar) → value ≢ scalar s
compound value e s h =
    let here : is_scalar value ≡ true = ap is_scalar h in absurd (ground (arith, e, here))

object-steps :
    (xs ys : Entries)
    → Found xs ys
    → (step : Step) (value : Value) → child step (object xs) ≡ some value
    → (actual : Value) × (child step (object ys) ≡ some actual) × Keeps value actual
unfolding child
object-steps xs ys found (at_key key) value h = found key value h
object-steps xs ys found (at_index n) value h = absurd (ground (arith, h))

object-Keeps : (xs ys : Entries) → Found xs ys → Keeps (object xs) (object ys)
object-Keeps xs ys found =
    Keeps-children (object xs) (object ys) (compound (object xs) refl) (object-steps xs ys found)

array-steps :
    (xs ys : Elements)
    → Indexed xs ys
    → (step : Step) (value : Value) → child step (array xs) ≡ some value
    → (actual : Value) × (child step (array ys) ≡ some actual) × Keeps value actual
unfolding child
array-steps xs ys indexed (at_key key) value h = absurd (ground (arith, h))
array-steps xs ys indexed (at_index n) value h = indexed n value h

array-Keeps : (xs ys : Elements) → Indexed xs ys → Keeps (array xs) (array ys)
array-Keeps xs ys indexed =
    Keeps-children (array xs) (array ys) (compound (array xs) refl) (array-steps xs ys indexed)

Found-entry :
    (key : Text) (x : Value) (xs ys : Entries)
    → (actual : Value) × (find key ys ≡ some actual) × Keeps x actual
    → Found xs ys
    → Found (entry key x xs) ys
unfolding find
Found-entry key x xs ys (actual, at, keeps) found other value = elim (Bool-cases (key == other)) [
  | inl e ↦ rw e (λ h.
      let same : key ≡ other = (text_beq_iff key other).0 e in
      (
        actual,
        subst (λ k. find k ys ≡ some actual) same at,
        subst (λ o. Keeps o actual) (some-injective x value h) keeps,
      ))
  | inr e ↦ rw e (λ h. found other value h)
]

Found-none : (ys : Entries) → Found no_entries ys
unfolding find
Found-none ys key value h = absurd (ground (arith, h))

Indexed-element :
    (x y : Value) (xs ys : Elements)
    → Keeps x y
    → Indexed xs ys
    → Indexed (element x xs) (element y ys)
unfolding nth
Indexed-element x y xs ys keeps indexed zero value h =
    (y, refl, subst (λ o. Keeps o y) (some-injective x value h) keeps)
Indexed-element x y xs ys keeps indexed (suc n) value h = indexed n value h

Indexed-none : (ys : Elements) → Indexed no_elements ys
unfolding nth
Indexed-none ys n value h = absurd (ground (arith, h))

and_true : (a b : Bool) → (a && b) ≡ true → (a ≡ true) × (b ≡ true)
and_true true b h = (refl, h)
and_true false b h = absurd (ground (arith, h))

found_equal :
    (key : Text) (x : Value) (ys : Entries)
    → ((w : Value) → deep_equal x w ≡ true → Keeps x w)
    → holds (find key ys) (deep_equal x) ≡ true
    → (actual : Value) × (find key ys ≡ some actual) × Keeps x actual
found_equal key x ys keeps = elim (Option-cases (find key ys)) [
  | inl e ↦ rw e (λ h. absurd (ground (arith, h)))
  | inr (y, e) ↦ rw e (λ h. (y, refl, keeps y h))
]

mutual
  unfolding deep_equal

  pub deep_equal-Keeps : (v w : Value) → deep_equal v w ≡ true → Keeps v w
  deep_equal-Keeps null null h = Keeps-same null
  deep_equal-Keeps (scalar a) (scalar b) h =
      subst (λ w. Keeps (scalar a) w) (ap scalar (same_scalar-eq a b h)) (Keeps-same (scalar a))
  deep_equal-Keeps (array xs) (array ys) h = array-Keeps xs ys (equal_elements-Indexed xs ys h)
  deep_equal-Keeps (object xs) (object ys) h =
      object-Keeps xs ys
        (equal_entries-Found xs ys (and_true (count xs == count ys) (equal_entries xs ys) h).1)
  deep_equal-Keeps _ _ h = absurd (ground (arith, h))

  equal_elements-Indexed : (xs ys : Elements) → equal_elements xs ys ≡ true → Indexed xs ys
  equal_elements-Indexed no_elements ys h = Indexed-none ys
  equal_elements-Indexed (element x xs) no_elements h = absurd (ground (arith, h))
  equal_elements-Indexed (element x xs) (element y ys) h =
      Indexed-element x y xs ys
        (deep_equal-Keeps x y (and_true (deep_equal x y) (equal_elements xs ys) h).0)
        (equal_elements-Indexed xs ys (and_true (deep_equal x y) (equal_elements xs ys) h).1)

  equal_entries-Found : (xs ys : Entries) → equal_entries xs ys ≡ true → Found xs ys
  equal_entries-Found no_entries ys h = Found-none ys
  equal_entries-Found (entry key x xs) ys h =
      let (here, later) = and_true (holds (find key ys) (deep_equal x)) (equal_entries xs ys) h in
      Found-entry key x xs ys (found_equal key x ys (deep_equal-Keeps x) here)
        (equal_entries-Found xs ys later)

pub then_check-none : (a b : Option Fault) → then_check a b ≡ none → (a ≡ none) × (b ≡ none)
unfolding then_check
then_check-none none b h = (refl, h)
then_check-none (some fault) b h = absurd (ground (arith, h))

module _ (decode : Text → Option Value) where
  module _ (verify : (before after : Value) → Pointer → Option Fault)
      (keeps : (before after : Value) (s : Pointer)
        → verify before after s ≡ none
        → Keeps before after) where
    verify_items-Indexed :
        (xs ys : Elements) (s : Pointer)
        → len ys ≡ len xs
        → verify_items decode verify xs ys s ≡ none
        → Indexed xs ys
    unfolding verify_items len
    verify_items-Indexed no_elements ys s l h = Indexed-none ys
    verify_items-Indexed (element x xs) no_elements s l h = absurd (omega (arith, l))
    verify_items-Indexed (element x xs) (element y ys) s l h =
        let (here, later) = then_check-none (verify x y s) (verify_items decode verify xs ys s) h in
        Indexed-element x y xs ys (keeps x y s here)
          (verify_items-Indexed xs ys s (omega (arith, l)) later)

    verify_actual-Keeps :
        (key : Text) (x : Value) (ys : Entries) (s : Pointer)
        → verify_actual decode verify key x (find key ys) s ≡ none
        → (actual : Value) × (find key ys ≡ some actual) × Keeps x actual
    unfolding verify_actual
    verify_actual-Keeps key x ys s = elim (Option-cases (find key ys)) [
      | inl e ↦ rw e (λ h. absurd (ground (arith, h)))
      | inr (y, e) ↦ rw e (λ h. (y, refl, keeps x y (configuration_property_schema s key) h))
    ]

    verify_kept-Found :
        (xs ys : Entries) (s : Pointer) → verify_kept decode verify xs ys s ≡ none → Found xs ys
    unfolding verify_kept verify_actual
    verify_kept-Found no_entries ys s h = Found-none ys
    verify_kept-Found (entry key x xs) ys s h =
        let (here, later) =
          then_check-none (verify_actual decode verify key x (find key ys) s)
            (verify_kept decode verify xs ys s) h in
        Found-entry key x xs ys (verify_actual-Keeps key x ys s here)
          (verify_kept-Found xs ys s later)

    verify_kind-Keeps :
        (before after : Value) (s : Pointer)
        → verify_kind decode verify before after s ≡ none
        → Keeps before after
    unfolding verify_kind verify_preserved_map
    verify_kind-Keeps (object xs) (object ys) s = λ h.
        let (kept, added) =
          then_check-none (verify_kept decode verify xs ys s) (verify_added decode verify xs ys s)
            h in
        object-Keeps xs ys (verify_kept-Found xs ys s kept)
    verify_kind-Keeps (array xs) (array ys) s = elim (Bool-cases (len ys == len xs)) [
      | inl e ↦ rw e (λ h.
          array-Keeps xs ys
            (verify_items-Indexed xs ys (item_schema s) ((nat_eq.decides (len ys) (len xs)).0 e) h))
      | inr e ↦ rw e (λ h. absurd (ground (arith, h)))
    ]
    verify_kind-Keeps _ _ s = λ h. absurd (ground (arith, h))

  -- When `verifyPreservedValue` finds no fault, each scalar that the value held is held, at the same path,
  -- by the new one.
  pub verify_preserved_value-Keeps :
      (fuel : ℕ) (before after : Value) (s : Pointer)
      → verify_preserved_value decode fuel before after s ≡ none
      → Keeps before after
  unfolding verify_preserved_value
  verify_preserved_value-Keeps zero before after s = λ h. absurd (ground (arith, h))
  verify_preserved_value-Keeps (suc fuel) before after s =
      elim (Bool-cases (deep_equal before after)) [
        | inl e ↦ rw e (λ h. deep_equal-Keeps before after e)
        | inr e ↦ rw e (λ h.
            verify_kind-Keeps (verify_preserved_value decode fuel)
              (verify_preserved_value-Keeps fuel) before after s h)
      ]
