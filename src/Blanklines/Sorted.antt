-- ===== src/Blanklines/Sorted.antt =====
-- What `removeBlankLines` asks of `sort.Slice`, and that a sort by insertion does it.
use mathlib.Core.List.{Permᴰ}
use mathlib.Core.List.Permᴰ
use medik8s_system_tests.Base.{
  ℕ, ◌≢◌, ◌≤◌, ◌<◌, refl, sym, ap, ◌∙◌, subst, List, [], ◌∷◌, All, All-map, arith, ltb,
  if◌then◌else◌, Bool-cases, inl, inr,
}
use medik8s_system_tests.Blanklines.{Position}
use medik8s_system_tests.Blanklines.Places.{Distinct}

-- From the last position of a file to the first, none twice.
abbrev pub Descending : List Position → Type 0
Descending [] = Unit
Descending (position ∷ positions) =
    All (λ p. p.offset < position.offset) positions × Descending positions

-- No position stands behind one of a smaller offset.
abbrev pub NonAscending : List Position → Type 0
NonAscending [] = Unit
NonAscending (position ∷ positions) =
    All (λ p. p.offset ≤ position.offset) positions × NonAscending positions

-- `sort.Slice` by `findings[i].position.Offset > findings[j].position.Offset`: the same positions, from
-- the greatest offset to the least.
abbrev pub SortsDescending : (List Position → List Position) → Type 0
SortsDescending sort_slice =
    (found : List Position) → Permᴰ found (sort_slice found) × NonAscending (sort_slice found)

pub Permᴰ-All : (P : Position → Type 0) (xs ys : List Position) → Permᴰ xs ys → All P xs → All P ys
Permᴰ-All P _ _ Permᴰ.nil h = tt
Permᴰ-All P _ _ (Permᴰ.cons {l₁ = xs} {l₂ = ys} e d) (here, h) =
    (subst P e here, Permᴰ-All P xs ys d h)
Permᴰ-All P _ _ (Permᴰ.swap e₁ e₂) (a, (b, h)) = (subst P e₂ b, (subst P e₁ a, h))
Permᴰ-All P _ _ (Permᴰ.trans {l₁ = xs} {l₂ = ys} {l₃ = zs} d₁ d₂) h =
    Permᴰ-All P ys zs d₂ (Permᴰ-All P xs ys d₁ h)

Permᴰ-Distinct : (xs ys : List Position) → Permᴰ xs ys → Distinct xs → Distinct ys
Permᴰ-Distinct _ _ Permᴰ.nil h = tt
Permᴰ-Distinct _ _ (Permᴰ.cons {a} {b} {l₁ = xs} {l₂ = ys} e d) (apart, h) = (
  subst (λ p. All (λ q. p.offset ≢ q.offset) ys) e
      (Permᴰ-All (λ q. a.offset ≢ q.offset) xs ys d apart),
  Permᴰ-Distinct xs ys d h,
)
Permᴰ-Distinct _ _ (Permᴰ.swap {a} {b} {a'} {b'} {l} e₁ e₂) ((ab, al), (bl, h)) = (
  (
    λ same. ab (ap (λ p. p.offset) e₁ ∙ sym same ∙ sym (ap (λ p. p.offset) e₂)),
    subst (λ p. All (λ q. p.offset ≢ q.offset) l) e₂ bl,
  ),
  (subst (λ p. All (λ q. p.offset ≢ q.offset) l) e₁ al, h),
)
Permᴰ-Distinct _ _ (Permᴰ.trans {l₁ = xs} {l₂ = ys} {l₃ = zs} d₁ d₂) h =
    Permᴰ-Distinct ys zs d₂ (Permᴰ-Distinct xs ys d₁ h)

below :
    (offset : ℕ) (positions : List Position)
    → All (λ p. p.offset ≤ offset) positions
    → All (λ q. offset ≢ q.offset) positions
    → All (λ p. p.offset < offset) positions
below offset [] less apart = tt
below offset (p ∷ positions) (here, less) (there, apart) =
    (strict p.offset here there, below offset positions less apart)
  where
    strict : (m : ℕ) → m ≤ offset → offset ≢ m → m < offset
    strict m h other = omega (arith, h, other)

NonAscending-Descending : (xs : List Position) → NonAscending xs → Distinct xs → Descending xs
NonAscending-Descending [] sorted distinct = tt
NonAscending-Descending (p ∷ xs) (less, sorted) (apart, distinct) =
    (below p.offset xs less apart, NonAscending-Descending xs sorted distinct)

-- Positions that are found once each are sorted from the last to the first, none twice.
pub SortsDescending-Descending :
    (sort_slice : List Position → List Position) (found : List Position)
    → SortsDescending sort_slice
    → Distinct found
    → Descending (sort_slice found)
SortsDescending-Descending sort_slice found sorts distinct =
    let (same, order) = sorts found in
    NonAscending-Descending (sort_slice found) order
      (Permᴰ-Distinct found (sort_slice found) same distinct)

unfoldable insert_in_order : Position → List Position → List Position
insert_in_order position [] = position ∷ []
insert_in_order position (other ∷ positions) =
    let later = insert_in_order position positions in
    if ltb position.offset other.offset then other ∷ later else position ∷ other ∷ positions

unfoldable pub insertion_sort : List Position → List Position
unfolding insert_in_order
insertion_sort [] = []
insertion_sort (position ∷ positions) = insert_in_order position (insertion_sort positions)

insert_in_order-Permᴰ : (p : Position) (xs : List Position) → Permᴰ (p ∷ xs) (insert_in_order p xs)
unfolding insert_in_order
insert_in_order-Permᴰ p [] = Permᴰ.refl (p ∷ [])
insert_in_order-Permᴰ p (q ∷ xs) = elim (Bool-cases (ltb p.offset q.offset)) [
  | inl e ↦ rw e (Permᴰ.trans (Permᴰ.swap refl refl) (Permᴰ.cons refl (insert_in_order-Permᴰ p xs)))
  | inr e ↦ rw e (Permᴰ.refl (p ∷ q ∷ xs))
]

insert_in_order-NonAscending :
    (p : Position) (xs : List Position) → NonAscending xs → NonAscending (insert_in_order p xs)
unfolding insert_in_order
insert_in_order-NonAscending p [] sorted = (tt, tt)
insert_in_order-NonAscending p (q ∷ xs) (less, sorted) = elim (Bool-cases (ltb p.offset q.offset)) [
  | inl e ↦ rw e (
    Permᴰ-All (λ r. r.offset ≤ q.offset) (p ∷ xs) (insert_in_order p xs)
        (insert_in_order-Permᴰ p xs) (ground (arith, e), less),
    insert_in_order-NonAscending p xs sorted,
  )
  | inr e ↦
      let first : q.offset ≤ p.offset = ground (arith, e) in
      rw e ((first, All-map xs (λ r h. omega (arith, h, first)) less), (less, sorted))
]

insertion_sort-Permᴰ : (xs : List Position) → Permᴰ xs (insertion_sort xs)
unfolding insertion_sort
insertion_sort-Permᴰ [] = Permᴰ.nil
insertion_sort-Permᴰ (p ∷ xs) =
    Permᴰ.trans (Permᴰ.cons refl (insertion_sort-Permᴰ xs))
      (insert_in_order-Permᴰ p (insertion_sort xs))

insertion_sort-NonAscending : (xs : List Position) → NonAscending (insertion_sort xs)
unfolding insertion_sort
insertion_sort-NonAscending [] = tt
insertion_sort-NonAscending (p ∷ xs) =
    insert_in_order-NonAscending p (insertion_sort xs) (insertion_sort-NonAscending xs)

-- A sort by insertion does what is asked.
pub insertion_sort-SortsDescending : SortsDescending insertion_sort
insertion_sort-SortsDescending found =
    (insertion_sort-Permᴰ found, insertion_sort-NonAscending found)
