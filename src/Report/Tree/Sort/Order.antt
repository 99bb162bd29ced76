-- ===== src/Report/Tree/Sort/Order.antt =====
-- The comparison of `Sort` is one that `slices.SortFunc` can sort by.
use Prim.Native.Nat.{compare, Ordering}
use medik8s_system_tests.Base.{ℕ, ◌≡◌, refl, ap, Bool, true, false, [], ◌∷◌, arith}
use medik8s_system_tests.Go.Strings.{Text}
use medik8s_system_tests.Report.Tree.{name_of, specs_of}
use medik8s_system_tests.Report.Tree.Sort.{flip, or_else, compare_text, compare_trees}

abbrev pub is_greater : Ordering → Bool
is_greater Ordering.gt = true
is_greater Ordering.lt = false
is_greater Ordering.eq = false

-- What the documentation of `slices.SortFunc` asks of a comparison.
abbrev pub IsOrder {ℓ} : {A : Type ℓ} → (A → A → Ordering) → Type ℓ
IsOrder {A} cmp =
    ((a b : A) → cmp b a ≡ flip (cmp a b))
    × ((a b c : A)
        → is_greater (cmp a b) ≡ false
        → is_greater (cmp b c) ≡ false
        → is_greater (cmp a c) ≡ false)

compare-flip : (a b : ℕ) → compare b a ≡ flip (compare a b)
compare-flip a b = ground arith

or_else-flip :
    (first second : Ordering) → flip (or_else first second) ≡ or_else (flip first) (flip second)
or_else-flip Ordering.lt second = refl
or_else-flip Ordering.eq second = refl
or_else-flip Ordering.gt second = refl

compare_text-flip : (s t : Text) → compare_text t s ≡ flip (compare_text s t)
unfolding compare_text
compare_text-flip [] [] = refl
compare_text-flip [] (b ∷ t) = refl
compare_text-flip (a ∷ s) [] = refl
compare_text-flip (a ∷ s) (b ∷ t) =
    rw (compare-flip a b, compare_text-flip s t, or_else-flip (compare a b) (compare_text s t)) refl

-- Comparisons by a number and then by another comparison.
or_else-order :
    (x y z : ℕ) (first second third : Ordering)
    → (is_greater first ≡ false → is_greater second ≡ false → is_greater third ≡ false)
    → is_greater (or_else (compare x y) first) ≡ false
    → is_greater (or_else (compare y z) second) ≡ false
    → is_greater (or_else (compare x z) third) ≡ false
or_else-order x y z first second third trans h k = ground (arith, h, k, trans)

compare_text-order :
    (s t u : Text)
    → is_greater (compare_text s t) ≡ false
    → is_greater (compare_text t u) ≡ false
    → is_greater (compare_text s u) ≡ false
unfolding compare_text
compare_text-order [] t [] = λ h k. refl
compare_text-order [] t (c ∷ u) = λ h k. refl
compare_text-order (a ∷ s) [] u = λ h k. absurd (ground arith)
compare_text-order (a ∷ s) (b ∷ t) [] = λ h k. absurd (ground arith)
compare_text-order (a ∷ s) (b ∷ t) (c ∷ u) =
    or_else-order a b c (compare_text s t) (compare_text t u) (compare_text s u)
      (compare_text-order s t u)

or_else-order_down :
    (x y z : ℕ) (first second third : Ordering)
    → (is_greater first ≡ false → is_greater second ≡ false → is_greater third ≡ false)
    → is_greater (or_else (flip (compare x y)) first) ≡ false
    → is_greater (or_else (flip (compare y z)) second) ≡ false
    → is_greater (or_else (flip (compare x z)) third) ≡ false
or_else-order_down x y z first second third trans h k = ground (arith, h, k, trans)

compare-flip_twice : (a b : ℕ) → flip (compare b a) ≡ flip (flip (compare a b))
compare-flip_twice a b = ap flip (compare-flip a b)

-- The comparison of `Sort` is antisymmetric and transitive, in either direction.
pub compare_trees-IsOrder : (descending : Bool) → IsOrder (compare_trees descending)
unfolding compare_trees
compare_trees-IsOrder true = (
  λ a b.
      rw
        (
          compare-flip (specs_of a) (specs_of b),
          compare_text-flip (name_of a) (name_of b),
          or_else-flip (flip (compare (specs_of a) (specs_of b)))
              (compare_text (name_of a) (name_of b)),
        )
        refl,
  λ a b c.
      or_else-order_down (specs_of a) (specs_of b) (specs_of c)
        (compare_text (name_of a) (name_of b)) (compare_text (name_of b) (name_of c))
        (compare_text (name_of a) (name_of c))
        (compare_text-order (name_of a) (name_of b) (name_of c)),
)
compare_trees-IsOrder false = (
  λ a b.
      rw
        (
          compare-flip (specs_of a) (specs_of b),
          compare_text-flip (name_of a) (name_of b),
          or_else-flip (compare (specs_of a) (specs_of b)) (compare_text (name_of a) (name_of b)),
        )
        refl,
  λ a b c.
      or_else-order (specs_of a) (specs_of b) (specs_of c) (compare_text (name_of a) (name_of b))
        (compare_text (name_of b) (name_of c)) (compare_text (name_of a) (name_of c))
        (compare_text-order (name_of a) (name_of b) (name_of c)),
)
