-- ===== src/Block/Bytes.antt =====
-- Little-endian numbers, as `binary.LittleEndian` reads them, and the encoding that they invert.
use medik8s_system_tests.Base.{
  ℕ, zero, suc, ◌+◌, ◌*◌, ◌/◌, ◌%◌, ◌^◌, ◌<◌, ◌≡◌, List, [], ◌∷◌, arith,
}

abbrev pub Bytes : Type 0
Bytes = List ℕ

-- `binary.LittleEndian.Uint16`, `Uint32` and `Uint64`, by the length of the slice.
unfoldable pub little_endian : Bytes → ℕ
little_endian [] = 0
little_endian (b ∷ bytes) = b + 256 * little_endian bytes

-- The lowest `count` bytes of a number.
unfoldable pub put_little_endian : (count : ℕ) → ℕ → Bytes
put_little_endian zero n = []
put_little_endian (suc count) n = (n % 256) ∷ put_little_endian count (n / 256)

-- The number has no more than `count` bytes.
abbrev pub FitsIn : (count : ℕ) → ℕ → Type 0
FitsIn zero n = n ≡ 0
FitsIn (suc count) n = FitsIn count (n / 256)

pub little_endian-put_little_endian :
    (count n : ℕ) → FitsIn count n → little_endian (put_little_endian count n) ≡ n
unfolding little_endian put_little_endian
little_endian-put_little_endian zero n fits = omega arith
little_endian-put_little_endian (suc count) n fits =
    omega (arith, little_endian-put_little_endian count (n / 256) fits)

pub FitsIn-two : (n : ℕ) → n < 2 ^ 16 → FitsIn 2 n
FitsIn-two n h = omega arith

pub FitsIn-four : (n : ℕ) → n < 2 ^ 32 → FitsIn 4 n
FitsIn-four n h = omega arith

pub FitsIn-eight : (n : ℕ) → n < 2 ^ 64 → FitsIn 8 n
FitsIn-eight n h = omega arith
