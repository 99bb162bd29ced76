-- ===== src/Preservation/Json.antt =====
-- The values that `json.Unmarshal` and `unstructured` keep, `reflect.DeepEqual` on them, and the settings
-- under them. A map is the list of its entries in the order in which a `range` loop would meet them. A map
-- or a slice that is nil is not told from an empty one.
use medik8s_system_tests.Base.{
  ℕ, suc, ◌+◌, ◌≡◌, refl, sym, ap, Bool, true, false, ◌&&◌, List, [], ◌∷◌, Option, none, some,
  arith, ◌==◌, nat_eq, if◌then◌else◌, Option-cases, inl, inr, ◌≢◌,
}
use medik8s_system_tests.Base.Int.{ℤ, pos, negsuc}
use medik8s_system_tests.Go.Strings.{Text, text_eq, text_beq_iff}

-- A `float64` is numbered by its value, so that those with one number are equal.
pub data Scalar : Type 0 where
  boolean : Bool → Scalar
  integer : ℤ → Scalar
  float : ℕ → Scalar
  characters : Text → Scalar

mutual
  pub data Value : Type 0 where
    null : Value
    scalar : Scalar → Value
    array : Elements → Value
    object : Entries → Value

  pub data Elements : Type 0 where
    no_elements : Elements
    element : Value → Elements → Elements

  pub data Entries : Type 0 where
    no_entries : Entries
    entry : (key : Text) → Value → Entries → Entries

unfoldable pub find : (key : Text) → Entries → Option Value
find key no_entries = none
find key (entry other value entries) =
    let later = find key entries in if other == key then some value else later

unfoldable pub count : Entries → ℕ
count no_entries = 0
count (entry key value entries) = suc (count entries)

abbrev same_boolean : Bool → Bool → Bool
same_boolean true other = other
same_boolean false true = false
same_boolean false false = true

abbrev same_integer : ℤ → ℤ → Bool
same_integer (pos m) (pos n) = m == n
same_integer (negsuc m) (negsuc n) = m == n
same_integer _ _ = false

unfoldable pub same_scalar : Scalar → Scalar → Bool
same_scalar (boolean a) (boolean b) = same_boolean a b
same_scalar (integer a) (integer b) = same_integer a b
same_scalar (float a) (float b) = a == b
same_scalar (characters a) (characters b) = a == b
same_scalar _ _ = false

abbrev pub holds : Option Value → (Value → Bool) → Bool
holds none test = false
holds (some value) test = test value

-- `reflect.DeepEqual`
unfoldable mutual
  unfolding find count same_scalar

  pub deep_equal : Value → Value → Bool
  deep_equal null null = true
  deep_equal (scalar a) (scalar b) = same_scalar a b
  deep_equal (array xs) (array ys) = equal_elements xs ys
  deep_equal (object xs) (object ys) = count xs == count ys && equal_entries xs ys
  deep_equal _ _ = false

  pub equal_elements : Elements → Elements → Bool
  equal_elements no_elements no_elements = true
  equal_elements (element x xs) (element y ys) = deep_equal x y && equal_elements xs ys
  equal_elements _ _ = false

  -- Whether each entry is met in the other map with an equal value.
  pub equal_entries : Entries → Entries → Bool
  equal_entries no_entries ys = true
  equal_entries (entry key x xs) ys = holds (find key ys) (deep_equal x) && equal_entries xs ys

-- How many values there are at and under a value.
unfoldable mutual
  pub size : Value → ℕ
  size null = 1
  size (scalar s) = 1
  size (array values) = suc (size_elements values)
  size (object entries) = suc (size_entries entries)

  pub size_elements : Elements → ℕ
  size_elements no_elements = 0
  size_elements (element value values) = size value + size_elements values

  pub size_entries : Entries → ℕ
  size_entries no_entries = 0
  size_entries (entry key value entries) = size value + size_entries entries

-- A step from a value to one that it holds.
pub data Step : Type 0 where
  at_key : Text → Step
  at_index : ℕ → Step

unfoldable pub nth : ℕ → Elements → Option Value
nth n no_elements = none
nth ℕ.zero (element x xs) = some x
nth (suc n) (element x xs) = nth n xs

unfoldable pub child : Step → Value → Option Value
unfolding find nth
child (at_key key) (object entries) = find key entries
child (at_index n) (array elements) = nth n elements
child _ _ = none

abbrev pub and_then : Option Value → (Value → Option Value) → Option Value
and_then none next = none
and_then (some value) next = next value

-- What a value holds at the end of a path.
unfoldable pub setting : List Step → Value → Option Value
unfolding child
setting [] value = some value
setting (step ∷ path) value = and_then (child step value) (setting path)

same_boolean-eq : (a b : Bool) → same_boolean a b ≡ true → a ≡ b
same_boolean-eq true other h = sym h
same_boolean-eq false true h = absurd (ground (arith, h))
same_boolean-eq false false h = refl

same_integer-eq : (a b : ℤ) → same_integer a b ≡ true → a ≡ b
same_integer-eq (pos m) (pos n) h = ap pos ((nat_eq.decides m n).0 h)
same_integer-eq (negsuc m) (negsuc n) h = ap negsuc ((nat_eq.decides m n).0 h)
same_integer-eq (pos m) (negsuc n) h = absurd (ground (arith, h))
same_integer-eq (negsuc m) (pos n) h = absurd (ground (arith, h))

pub same_scalar-eq : (a b : Scalar) → same_scalar a b ≡ true → a ≡ b
unfolding same_scalar
same_scalar-eq (boolean a) (boolean b) h = ap boolean (same_boolean-eq a b h)
same_scalar-eq (integer a) (integer b) h = ap integer (same_integer-eq a b h)
same_scalar-eq (float a) (float b) h = ap float ((nat_eq.decides a b).0 h)
same_scalar-eq (characters a) (characters b) h = ap characters ((text_beq_iff a b).0 h)
same_scalar-eq _ _ h = absurd (ground (arith, h))

abbrev or_null : Option Value → Value
or_null none = null
or_null (some value) = value

-- The scalars of the one are at the same paths of the other.
abbrev pub Keeps : (before after : Value) → Type 0
Keeps before after =
    (path : List Step) (s : Scalar)
    → setting path before ≡ some (scalar s)
    → setting path after ≡ some (scalar s)

pub Keeps-same : (value : Value) → Keeps value value
Keeps-same value path s h = h

-- What is at each step of the one is at that step of the other, with the same scalars.
pub Keeps-children :
    (before after : Value)
    → ((s : Scalar) → before ≢ scalar s)
    → ((step : Step) (value : Value)
        → child step before ≡ some value
        → (actual : Value) × (child step after ≡ some actual) × Keeps value actual)
    → Keeps before after
unfolding setting
Keeps-children before after inner keep [] s = λ h. absurd (inner s (ap or_null h))
Keeps-children before after inner keep (step ∷ path) s = elim (Option-cases (child step before)) [
  | inl e ↦ rw e (λ h. absurd (ground (arith, h)))
  | inr (value, e) ↦ let (actual, at, kept) = keep step value e in rw (e, at) (kept path s)
]
