-- ===== src/Block/Heartbeats/Variance.antt =====
-- The slot counts that `validateSlotDataConsistency` accepts.
use medik8s_system_tests.Base.{
  ℕ, ◌+◌, ◌-◌, ◌≤◌, ◌≡◌, refl, sym, ◌∙◌, ◌↔◌, ◌⊎◌, inl, inr, String, List, [], ◌∷◌, arith, length,
  ltb, All, Any, All-map, Bool-cases,
}
use medik8s_system_tests.Block.Header.{SlotData}
use medik8s_system_tests.Block.Heartbeats.{
  lower, raise, Round, consistent, slot_range, judge_range, validate_slot_data_consistency,
}
use medik8s_system_tests.Block.Heartbeats.Bounds.{
  lower-least, lower-either, raise-greatest, raise-either,
}

abbrev pub count : String × List SlotData → ℕ
count (pod, slots) = length slots

-- Any two pods of the round see numbers of slots that differ by at most five.
abbrev pub IsConsistent : Round → Type 0
IsConsistent round = All (λ p. All (λ q. count p ≤ count q + 5) round) round

-- The number is the initial one or that of a pod.
abbrev pub Occurs : ℕ → ℕ → Round → Type 0
Occurs n start round = (n ≡ start) ⊎ Any (λ p. count p ≡ n) round

abbrev pub IsRange : Round → (lowest highest low high : ℕ) → Type 0
IsRange round lowest highest low high =
    (low ≤ lowest)
    × (highest ≤ high)
    × All (λ p. low ≤ count p) round
    × All (λ p. count p ≤ high) round
    × Occurs low lowest round
    × Occurs high highest round

Occurs-cons :
    (n start next : ℕ) (p : String × List SlotData) (round : Round)
    → (next ≡ start) ⊎ (next ≡ count p)
    → Occurs n next round
    → Occurs n start (p ∷ round)
Occurs-cons n start next p round (inl e) (inl f) = inl (f ∙ e)
Occurs-cons n start next p round (inr e) (inl f) = inr (inl (sym (f ∙ e)))
Occurs-cons n start next p round e (inr found) = inr (inr found)

slot_range-IsRange :
    (round : Round) (lowest highest : ℕ)
    → IsRange round lowest highest
        (slot_range round lowest highest).0
        (slot_range round lowest highest).1
unfolding slot_range
slot_range-IsRange [] lowest highest = (omega arith, omega arith, tt, tt, inl refl, inl refl)
slot_range-IsRange ((pod, slots) ∷ round) lowest highest =
    let n = length slots in
    let (low, high, all_low, all_high, at_low, at_high) =
      slot_range-IsRange round (lower lowest n) (raise highest n) in
    let (l, l') = lower-least lowest n in
    let (r, r') = raise-greatest highest n in
    (
      omega arith,
      omega arith,
      (omega arith, all_low),
      (omega arith, all_high),
      Occurs-cons (slot_range round (lower lowest n) (raise highest n)).0 lowest (lower lowest n)
          (pod, slots) round (lower-either lowest n) at_low,
      Occurs-cons (slot_range round (lower lowest n) (raise highest n)).1 highest (raise highest n)
          (pod, slots) round (raise-either highest n) at_high,
    )

-- A number that occurs in a round that starts with its reference count is a pod's.
Occurs-Any :
    (n : ℕ) (p : String × List SlotData) (round : Round)
    → Occurs n (count p) (p ∷ round)
    → Any (λ q. count q ≡ n) (p ∷ round)
Occurs-Any n p round (inl e) = inl (sym e)
Occurs-Any n p round (inr found) = found

-- An element of a list that has a property, under one that all have.
All-Any : {A : Type 0} {P Q : A → Type 0} (xs : List A) → All P xs → Any Q xs → (x : A) × P x × Q x
All-Any [] h g = elim g [ ]
All-Any (x ∷ xs) (p, h) (inl q) = (x, p, q)
All-Any (x ∷ xs) (p, h) (inr g) = All-Any xs h g

judge_range-consistent : (low high : ℕ) → (judge_range (low, high) ≡ consistent) ↔ (high ≤ low + 5)
unfolding judge_range
judge_range-consistent low high = elim (Bool-cases (ltb 5 (high - low))) [
  | inl e ↦ rw e (λ h. absurd (ground arith), λ h. absurd (ground arith))
  | inr e ↦ rw e (λ h. ground arith, λ h. refl)
]

spread-IsConsistent :
    (round : Round) (low high : ℕ)
    → All (λ p. low ≤ count p) round
    → All (λ p. count p ≤ high) round
    → Any (λ p. count p ≡ low) round
    → Any (λ p. count p ≡ high) round
    → (high ≤ low + 5) ↔ IsConsistent round
spread-IsConsistent round low high all_low all_high at_low at_high = (
  λ h. All-map round (λ p hp. All-map round (λ q hq. omega arith) all_low) all_high,
  λ h.
      let (p, inner, e) = All-Any round h at_high in
      let (q, close, e') = All-Any round inner at_low in omega arith,
)

-- When there is a pod, the slot data are found consistent exactly when the numbers of slots that any
-- two pods see differ by at most five.
pub validate_slot_data_consistency-IsConsistent :
    (pod : String) (slots : List SlotData) (round : Round)
    → (validate_slot_data_consistency ((pod, slots) ∷ round) ≡ consistent)
      ↔ IsConsistent ((pod, slots) ∷ round)
unfolding validate_slot_data_consistency
validate_slot_data_consistency-IsConsistent pod slots round =
    let whole : Round = (pod, slots) ∷ round in
    let n = length slots in
    let low = (slot_range whole n n).0 in
    let high = (slot_range whole n n).1 in
    let (a, b, all_low, all_high, at_low, at_high) = slot_range-IsRange whole n n in
    let judged = judge_range-consistent low high in
    let spread =
      spread-IsConsistent whole low high all_low all_high (Occurs-Any low (pod, slots) round at_low)
        (Occurs-Any high (pod, slots) round at_high) in
    (λ h. spread.0 (judged.0 h), λ h. judged.1 (spread.1 h))
