-- ===== src/Block/Heartbeats/Bounds.antt =====
-- The two updates of a running minimum and maximum.
use medik8s_system_tests.Base.{ℕ, ◌≤◌, ◌≡◌, refl, ◌⊎◌, inl, inr, arith, ltb, Bool-cases}
use medik8s_system_tests.Block.Heartbeats.{lower, raise}

pub lower-least : (lowest n : ℕ) → (lower lowest n ≤ lowest) × (lower lowest n ≤ n)
unfolding lower
lower-least lowest n = ground arith

pub lower-either : (lowest n : ℕ) → (lower lowest n ≡ lowest) ⊎ (lower lowest n ≡ n)
unfolding lower
lower-either lowest n = elim (Bool-cases (ltb n lowest)) [
  | inl e ↦ rw e (inr refl)
  | inr e ↦ rw e (inl refl)
]

pub raise-greatest : (highest n : ℕ) → (highest ≤ raise highest n) × (n ≤ raise highest n)
unfolding raise
raise-greatest highest n = ground arith

pub raise-either : (highest n : ℕ) → (raise highest n ≡ highest) ⊎ (raise highest n ≡ n)
unfolding raise
raise-either highest n = elim (Bool-cases (ltb highest n)) [
  | inl e ↦ rw e (inr refl)
  | inr e ↦ rw e (inl refl)
]
