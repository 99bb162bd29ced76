-- ===== src/Go/Strings.antt =====
-- Package `strings` of Go's standard library over the bytes of a text, as far as the source calls it.
use Prim.Native.Char.{code}
use medik8s_system_tests.Base.{
  ℕ, ◌≡◌, ◌↔◌, Bool, true, false, ◌&&◌, ◌||◌, String, List, [], ◌∷◌, Option, none, some, arith,
  Comparable, ◌==◌, nat_eq, leb, if◌then◌else◌, reverse,
}

abbrev pub Text : Type 0
Text = List ℕ

-- The code points of a literal: its bytes, since the source's literals are ASCII.
abbrev pub codes : String → Text
codes String.[] = []
codes (String.◌∷◌ c s) = code c ∷ codes s

abbrev pub text_beq : Text → Text → Bool
text_beq [] [] = true
text_beq [] (b ∷ t) = false
text_beq (a ∷ s) [] = false
text_beq (a ∷ s) (b ∷ t) = a == b && text_beq s t

pub text_beq_iff : (s t : Text) → (text_beq s t ≡ true) ↔ (s ≡ t)
text_beq_iff [] [] = ground arith
text_beq_iff [] (b ∷ t) = ground arith
text_beq_iff (a ∷ s) [] = ground arith
text_beq_iff (a ∷ s) (b ∷ t) = ground (arith, text_beq_iff s t)

instance abbrev pub text_eq : Comparable Text
text_eq = record { decides = text_beq_iff; same = text_beq }

-- `unicode.IsSpace`
unfoldable pub is_space : ℕ → Bool
is_space c =
    (leb 9 c && leb c 13)
    || (c == 32
        || (c == 133
            || (c == 160
                || (c == 5760
                    || ((leb 8192 c && leb c 8202)
                        || (c == 8232
                            || (c == 8233 || (c == 8239 || (c == 8287 || c == 12288)))))))))

-- `strings.HasPrefix(text, prefix)`
unfoldable pub has_prefix : (text prefix : Text) → Bool
has_prefix text [] = true
has_prefix [] (p ∷ prefix) = false
has_prefix (c ∷ text) (p ∷ prefix) = c == p && has_prefix text prefix

-- `strings.Contains(text, part)`
unfoldable pub contains : (text part : Text) → Bool
unfolding has_prefix
contains [] part = has_prefix [] part
contains (c ∷ text) part = has_prefix (c ∷ text) part || contains text part

-- `strings.Split(text, string(separator))`, for a separator of one byte.
unfoldable pub split : ℕ → Text → List Text
split separator [] = [] ∷ []
split separator (c ∷ text) =
    let parts = split separator text in
    if c == separator
    then [] ∷ parts
    else elim parts [ [] ↦ (c ∷ []) ∷ [] | part ∷ rest ↦ (c ∷ part) ∷ rest ]

-- `strings.TrimPrefix`-like cut: the rest of a text behind a prefix.
unfoldable pub cut_prefix : (text prefix : Text) → Option Text
cut_prefix text [] = some text
cut_prefix [] (p ∷ prefix) = none
cut_prefix (c ∷ text) (p ∷ prefix) =
    let rest = cut_prefix text prefix in if c == p then rest else none

-- What stands before and behind a separator that is found here, or else later.
unfoldable pub cut_here : Option Text → (later : Option (Text × Text)) → Option (Text × Text)
cut_here none later = later
cut_here (some rest) later = some ([], rest)

unfoldable pub cut_later : ℕ → Option (Text × Text) → Option (Text × Text)
cut_later c none = none
cut_later c (some (before, after)) = some (c ∷ before, after)

-- `strings.Cut(text, separator)`: what stands before and behind the first separator.
unfoldable pub cut : (text separator : Text) → Option (Text × Text)
unfolding cut_prefix cut_here cut_later
cut [] separator = cut_here (cut_prefix [] separator) none
cut (c ∷ text) separator =
    cut_here (cut_prefix (c ∷ text) separator) (cut_later c (cut text separator))

unfoldable pub drop_while : (ℕ → Bool) → Text → Text
drop_while test [] = []
drop_while test (c ∷ text) = let rest = drop_while test text in if test c then rest else c ∷ text

-- `strings.TrimFunc`
unfoldable pub trim_by : (ℕ → Bool) → Text → Text
unfolding drop_while
trim_by test text = reverse (drop_while test (reverse (drop_while test text)))

-- `strings.TrimSpace`
abbrev pub trim_space : Text → Text
trim_space text = trim_by is_space text

-- `strings.TrimPrefix`
abbrev pub or_text : Text → Option Text → Text
or_text text none = text
or_text text (some rest) = rest

unfoldable pub trim_prefix : (text prefix : Text) → Text
unfolding cut_prefix
trim_prefix text prefix = or_text text (cut_prefix text prefix)
