-- ===== src/Preservation/Accepted/Complete.antt =====
-- What extends a value by defaults only is accepted.
use mathlib.Core.Option.{some-injective}
use medik8s_system_tests.Base.{
  ℕ, zero, suc, ◌≡◌, ◌↔◌, ◌≤◌, refl, ap, subst, true, false, Option, none, some, arith, ◌==◌,
  nat_eq, if◌then◌else◌, Bool-cases, Option-cases, inl, inr,
}
use medik8s_system_tests.Go.Strings.{Text, text_eq, text_beq_iff}
use medik8s_system_tests.Preservation.Json.{
  Value, Elements, Entries, null, scalar, array, object, no_elements, element, no_entries, entry,
  find, nth, deep_equal, size, size_elements, size_entries,
}
use medik8s_system_tests.Preservation.{
  Schema, Pointer, Fault, schema, nil, to, then_check, is_some, configuration_property_schema,
  item_schema, len, verify_items, verify_actual, verify_kept, verify_expected, verify_declared,
  verify_addition, verify_added, verify_preserved_map, verify_kind, verify_preserved_value,
}
use medik8s_system_tests.Preservation.Accepted.{
  declared, default_value, Extends, by_equality, by_elements, by_entries,
}
use medik8s_system_tests.Preservation.Fuel.{size-find, size-positive}
use medik8s_system_tests.Preservation.Accepted.Sound.{verify_preserved_value-Extends}

-- No key stands twice in a map.
unfoldable mutual
  unfolding find

  pub IsKeyed : Value → Type 0
  IsKeyed null = Unit
  IsKeyed (scalar s) = Unit
  IsKeyed (array values) = HasKeyed values
  IsKeyed (object map) = AreKeyed map

  pub HasKeyed : Elements → Type 0
  HasKeyed no_elements = Unit
  HasKeyed (element value values) = IsKeyed value × HasKeyed values

  pub AreKeyed : Entries → Type 0
  AreKeyed no_entries = Unit
  AreKeyed (entry key value map) = (find key map ≡ none) × IsKeyed value × AreKeyed map

find-first : (key : Text) (x : Value) (xs : Entries) → find key (entry key x xs) ≡ some x
unfolding find
find-first key x xs = rw ((text_beq_iff key key).1 refl) refl

find-later :
    (key other : Text) (x y : Value) (xs : Entries)
    → find key xs ≡ none
    → find other xs ≡ some y
    → find other (entry key x xs) ≡ some y
unfolding find
find-later key other x y xs absent at = elim (Bool-cases (key == other)) [
  | inl e ↦
      let here : find key xs ≡ find other xs = ap (λ k. find k xs) ((text_beq_iff key other).0 e) in
      absurd (cc)
  | inr e ↦ rw e at
]

IsKeyed-find :
    (key : Text) (y : Value) (ys : Entries) → AreKeyed ys → find key ys ≡ some y → IsKeyed y
unfolding IsKeyed find
IsKeyed-find key y no_entries keyed = λ h. absurd (ground (arith, h))
IsKeyed-find key y (entry other x ys) (absent, here, keyed) = elim (Bool-cases (other == key)) [
  | inl e ↦ rw e (λ h. subst IsKeyed (some-injective x y h) here)
  | inr e ↦ rw e (IsKeyed-find key y ys keyed)
]

-- The decoder gives no key twice.
abbrev pub DecodesKeyed : (Text → Option Value) → Type 0
DecodesKeyed decode = (raw : Text) (value : Value) → decode raw ≡ some value → IsKeyed value

then_check-both : (a b : Option Fault) → a ≡ none → b ≡ none → then_check a b ≡ none
unfolding then_check
then_check-both none b h k = k
then_check-both (some fault) b h k = h

module _ (decode : Text → Option Value) (decodes : DecodesKeyed decode) where
  module _ (fuel : ℕ) (verify : (before after : Value) → Pointer → Option Fault)
      (complete : (before after : Value) (s : Pointer)
        → size after ≤ fuel
        → IsKeyed before
        → IsKeyed after
        → Extends decode before after s
        → verify before after s ≡ none) where
    verify_items-none :
        (xs ys : Elements) (s : Pointer)
        → size_elements ys ≤ fuel
        → HasKeyed xs
        → HasKeyed ys
        → ((n : ℕ) (x y : Value) → nth n xs ≡ some x → nth n ys ≡ some y → Extends decode x y s)
        → verify_items decode verify xs ys s ≡ none
    unfolding verify_items nth IsKeyed size
    verify_items-none no_elements ys s fits keyed are extends = refl
    verify_items-none (element x xs) no_elements s fits keyed are extends = refl
    verify_items-none (element x xs) (element y ys) s fits (kx, keyed) (ky, are) extends =
        then_check-both (verify x y s) (verify_items decode verify xs ys s)
          (complete x y s (omega (arith, fits)) kx ky (extends 0 x y refl refl))
          (verify_items-none xs ys s (omega (arith, fits)) keyed are
            (λ n u v at behind. extends (suc n) u v at behind))

    verify_kept-none :
        (xs ys : Entries) (s : Pointer)
        → size_entries ys ≤ fuel
        → AreKeyed xs
        → AreKeyed ys
        → ((key : Text) (x : Value) → find key xs ≡ some x → (y : Value) × (find key ys ≡ some y))
        → ((key : Text) (x y : Value)
            → find key xs ≡ some x
            → find key ys ≡ some y
            → Extends decode x y (configuration_property_schema s key))
        → verify_kept decode verify xs ys s ≡ none
    unfolding verify_kept verify_actual IsKeyed
    verify_kept-none no_entries ys s fits keyed are found extends = refl
    verify_kept-none (entry key x xs) ys s fits (absent, kx, keyed) are found extends =
        let (y, at) = found key x (find-first key x xs) in
        let ky = IsKeyed-find key y ys are at in
        let less = size-find key y ys at in
        then_check-both (verify_actual decode verify key x (find key ys) s)
          (verify_kept decode verify xs ys s)
          (rw at (
            complete x y (configuration_property_schema s key) (omega (arith, less, fits)) kx ky
              (extends key x y (find-first key x xs) at)))
          (verify_kept-none xs ys s fits keyed are
            (λ other u there. found other u (find-later key other x u xs absent there))
            (λ other u v there. extends other u v (find-later key other x u xs absent there)))

    verify_declared-none :
        (key : Text) (y : Value) (p : Schema) (expected : Value)
        → size y ≤ fuel
        → IsKeyed y
        → default_value decode p ≡ some expected
        → Extends decode expected y (to p)
        → verify_declared decode verify key y (some p) ≡ none
    unfolding verify_declared verify_expected default_value
    verify_declared-none key y (schema fields additional items none) expected fits keyed v extends =
        absurd (ground (arith, v))
    verify_declared-none key y (schema fields additional items (some raw)) expected fits keyed v
          extends =
        rw v (
          complete expected y (to (schema fields additional items (some raw))) fits
            (decodes raw expected v) keyed extends)

    verify_addition-none :
        (key : Text) (y : Value) (s : Pointer) (p : Schema) (expected : Value)
        → size y ≤ fuel
        → IsKeyed y
        → declared s key ≡ some p
        → default_value decode p ≡ some expected
        → Extends decode expected y (to p)
        → verify_addition decode verify key y s ≡ none
    unfolding verify_addition declared
    verify_addition-none key y nil p expected fits keyed d v extends = absurd (ground (arith, d))
    verify_addition-none key y (to (schema fields additional items default)) p expected fits keyed d
          v extends =
        rw d (verify_declared-none key y p expected fits keyed v extends)

    verify_added-none :
        (xs ys : Entries) (s : Pointer)
        → size_entries ys ≤ fuel
        → AreKeyed ys
        → ((key : Text) (y : Value)
            → find key xs ≡ none
            → find key ys ≡ some y
            → (p : Schema) × (expected : Value) × (declared s key ≡ some p)
              × (default_value decode p ≡ some expected))
        → ((key : Text) (y : Value) (p : Schema) (expected : Value)
            → find key xs ≡ none
            → find key ys ≡ some y
            → declared s key ≡ some p
            → default_value decode p ≡ some expected
            → Extends decode expected y (to p))
        → verify_added decode verify xs ys s ≡ none
    unfolding verify_added IsKeyed size
    verify_added-none xs no_entries s fits keyed new extends = refl
    verify_added-none xs (entry key y ys) s fits (absent, ky, keyed) new extends =
        then_check-both
          (if is_some (find key xs) then none else verify_addition decode verify key y s)
          (verify_added decode verify xs ys s)
          (elim (Option-cases (find key xs)) [
            | inl e ↦
                let (p, expected, d, v) = new key y e (find-first key y ys) in
                rw e (
                  verify_addition-none key y s p expected (omega (arith, fits)) ky d v
                    (extends key y p expected e (find-first key y ys) d v))
            | inr (x, e) ↦ rw e refl
          ])
          (verify_added-none xs ys s (omega (arith, fits)) keyed
            (λ other u e there. new other u e (find-later key other y u ys absent there))
            (λ other u p expected e there.
              extends other u p expected e (find-later key other y u ys absent there)))

    verify_kind-none :
        (before after : Value) (s : Pointer)
        → size after ≤ suc fuel
        → deep_equal before after ≡ false
        → IsKeyed before
        → IsKeyed after
        → Extends decode before after s
        → verify_kind decode verify before after s ≡ none
    unfolding verify_kind verify_preserved_map IsKeyed size
    verify_kind-none before after s fits differ kb ka (by_equality _ _ _ same) =
        absurd (ground (arith, differ, same))
    verify_kind-none _ _ s fits differ kb ka (by_elements xs ys _ long each) =
        let equal : (len ys == len xs) ≡ true = (nat_eq.decides (len ys) (len xs)).1 long in
        rw equal (verify_items-none xs ys (item_schema s) (omega (arith, fits)) kb ka each)
    verify_kind-none _ _ s fits differ kb ka (by_entries xs ys _ found extends new defaults) =
        then_check-both (verify_kept decode verify xs ys s) (verify_added decode verify xs ys s)
          (verify_kept-none xs ys s (omega (arith, fits)) kb ka found extends)
          (verify_added-none xs ys s (omega (arith, fits)) ka new defaults)

  Extends-verify_preserved_value :
      (fuel : ℕ) (before after : Value) (s : Pointer)
      → size after ≤ fuel
      → IsKeyed before
      → IsKeyed after
      → Extends decode before after s
      → verify_preserved_value decode fuel before after s ≡ none
  unfolding verify_preserved_value
  Extends-verify_preserved_value zero before after s fits kb ka extends =
      absurd (omega (arith, fits, size-positive after))
  Extends-verify_preserved_value (suc fuel) before after s fits kb ka extends =
      elim (Bool-cases (deep_equal before after)) [
        | inl e ↦ rw e refl
        | inr e ↦ rw e (
            verify_kind-none fuel (verify_preserved_value decode fuel)
              (Extends-verify_preserved_value fuel) before after s fits e kb ka extends)
      ]

  -- `verifyPreservedValue` finds no fault exactly if the new value extends the old one by defaults only,
  -- when no key stands twice in a map, the decoder gives no such map, and the fuel is at least the number
  -- of values at and under the new one.
  pub verify_preserved_value-Extends_iff :
      (fuel : ℕ) (before after : Value) (s : Pointer)
      → size after ≤ fuel
      → IsKeyed before
      → IsKeyed after
      → (verify_preserved_value decode fuel before after s ≡ none) ↔ Extends decode before after s
  verify_preserved_value-Extends_iff fuel before after s fits kb ka = (
    verify_preserved_value-Extends decode fuel before after s,
    Extends-verify_preserved_value fuel before after s fits kb ka,
  )
