-- ===== src/Block/Slices.antt =====
-- Fields of a message that is a slice of a region.
use medik8s_system_tests.Base.{
  ℕ, zero, suc, ◌+◌, ◌-◌, ◌*◌, ◌≤◌, ◌<◌, ◌≡◌, refl, sym, ap, ◌∙◌, List, [], ◌∷◌, arith, take, drop,
  slice, get_or,
}
use medik8s_system_tests.Block.Bytes.{Bytes, little_endian}

module _ {ℓ} {A : Type ℓ} where
  take-take : (m n : ℕ) (xs : List A) → m ≤ n → take m (take n xs) ≡ take m xs
  unfolding take
  take-take zero n xs h = refl
  take-take (suc m) zero xs h = absurd (omega arith)
  take-take (suc m) (suc n) [] h = refl
  take-take (suc m) (suc n) (x ∷ xs) h = ap (λ t. x ∷ t) (take-take m n xs (omega arith))

  drop-take : (m n : ℕ) (xs : List A) → m ≤ n → drop m (take n xs) ≡ take (n - m) (drop m xs)
  unfolding take drop
  drop-take zero n xs h = let e : n - 0 ≡ n = omega arith in rw e refl
  drop-take (suc m) zero xs h = absurd (omega arith)
  drop-take (suc m) (suc n) [] h = take-nil (suc n - suc m)
    where
      take-nil : (k : ℕ) → [] ≡ take {A = A} k []
      take-nil zero = refl
      take-nil (suc k) = refl
  drop-take (suc m) (suc n) (x ∷ xs) h =
      let e : suc n - suc m ≡ n - m = omega arith in rw e (drop-take m n xs (omega arith))

  drop-nil : (k : ℕ) → drop {A = A} k [] ≡ []
  unfolding drop
  drop-nil zero = refl
  drop-nil (suc k) = refl

  drop-drop : (m n : ℕ) (xs : List A) → drop m (drop n xs) ≡ drop (n + m) xs
  unfolding drop
  drop-drop m zero xs = let e : 0 + m ≡ m = omega arith in rw e refl
  drop-drop m (suc n) [] = drop-nil m ∙ sym (drop-nil (suc n + m))
  drop-drop m (suc n) (x ∷ xs) =
      let e : suc n + m ≡ suc (n + m) = omega arith in rw e (drop-drop m n xs)

  get_or-take : (n k : ℕ) (xs : List A) (d : A) → k < n → get_or (take n xs) k d ≡ get_or xs k d
  unfolding take get_or
  get_or-take zero k xs d h = absurd (omega arith)
  get_or-take (suc n) k [] d h = refl
  get_or-take (suc n) zero (x ∷ xs) d h = refl
  get_or-take (suc n) (suc k) (x ∷ xs) d h = get_or-take n k xs d (omega arith)

  get_or-drop : (m k : ℕ) (xs : List A) (d : A) → get_or (drop m xs) k d ≡ get_or xs (m + k) d
  unfolding drop get_or
  get_or-drop zero k xs d = let e : 0 + k ≡ k = omega arith in rw e refl
  get_or-drop (suc m) k [] d = refl
  get_or-drop (suc m) k (x ∷ xs) d =
      let e : suc m + k ≡ suc (m + k) = omega arith in rw e (get_or-drop m k xs d)

  pub get_or-slice :
      (start size k : ℕ) (xs : List A) (d : A)
      → k < size
      → get_or (slice start (start + size) xs) k d ≡ get_or xs (start + k) d
  unfolding slice
  get_or-slice start size k xs d h =
      let e : start + size - start ≡ size = omega arith in
      rw e (get_or-take size k (drop start xs) d h ∙ get_or-drop start k xs d)

  pub slice-slice :
      (start size from to : ℕ) (xs : List A)
      → from ≤ to
      → to ≤ size
      → slice from to (slice start (start + size) xs) ≡ take (to - from) (drop (start + from) xs)
  unfolding slice
  slice-slice start size from to xs h g =
      let e : start + size - start ≡ size = omega arith in
      rw e (
        rw (drop-take from size (drop start xs) (omega arith)) (
          take-take (to - from) (size - from) (drop from (drop start xs)) (omega arith)
          ∙ ap (take (to - from)) (drop-drop from start xs)))

  -- The first bytes of a message stand at its start.
  pub slice-front :
      (start size count : ℕ) (xs : List A)
      → count ≤ size
      → slice 0 count (slice start (start + size) xs) ≡ slice start (start + count) xs
  unfolding slice
  slice-front start size count xs h =
      let e : start + count - start ≡ count = omega arith in
      let f : count - 0 ≡ count = omega arith in
      let g : start + 0 ≡ start = omega arith in
      slice-slice start size 0 count xs (omega arith) h ∙ rw (e, f, g) refl

-- The number of `count` bytes from the place `start + k`, the lowest first.
abbrev pub number_at : (count : ℕ) → Bytes → (start k : ℕ) → ℕ
number_at zero bytes start k = 0
number_at (suc count) bytes start k =
    get_or bytes (start + k) 0 + 256 * number_at count bytes start (k + 1)

little_endian-suc :
    (n : ℕ) (bytes : Bytes)
    → little_endian (take (suc n) bytes)
      ≡ get_or bytes 0 0 + 256 * little_endian (take n (drop 1 bytes))
unfolding little_endian take get_or drop
little_endian-suc zero [] = refl
little_endian-suc (suc n) [] = refl
little_endian-suc n (b ∷ bytes) = refl

little_endian-take :
    (count : ℕ) (bytes : Bytes) (start k : ℕ)
    → little_endian (take count (drop (start + k) bytes)) ≡ number_at count bytes start k
little_endian-take zero bytes start k = unfold little_endian take in refl
little_endian-take (suc count) bytes start k =
    let later : little_endian (take count (drop 1 (drop (start + k) bytes)))
        ≡ number_at count bytes start (k + 1) =
      ap (λ t. little_endian (take count t))
        (drop-drop 1 (start + k) bytes ∙ ap (λ (p : ℕ). drop p bytes) (omega arith))
      ∙ little_endian-take count bytes start (k + 1) in
    let first : get_or (drop (start + k) bytes) 0 0 ≡ get_or bytes (start + k) 0 =
      get_or-drop (start + k) 0 bytes 0 ∙ ap (λ (p : ℕ). get_or bytes p 0) (omega arith) in
    omega (arith, little_endian-suc count (drop (start + k) bytes), first, later)

pub little_endian-field :
    (start size k count : ℕ) (bytes : Bytes)
    → k + count ≤ size
    → little_endian (slice k (k + count) (slice start (start + size) bytes))
      ≡ number_at count bytes start k
little_endian-field start size k count bytes h =
    let e : k + count - k ≡ count = omega arith in
    rw (slice-slice start size k (k + count) bytes (omega arith) h, e)
      (little_endian-take count bytes start k)
