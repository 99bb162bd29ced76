-- ===== src/Report/Template/Clean.antt =====
-- What `cleanPath` leaves of a path.
use medik8s_system_tests.Base.{◌≡◌, refl, ap, ◌∙◌, true, false, List, [], ◌∷◌, ◌++◌, All, ◌==◌}
use medik8s_system_tests.Go.Strings.{Text, codes, text_eq, split}
use medik8s_system_tests.Report.Template.{from_root, or_path, clean_path, separator}

abbrev pub IsOther : Text → Type 0
IsOther element = (element == codes "system-tests") ≡ false

-- Nothing, or elements that start with `system-tests`.
abbrev pub IsRooted : List Text → Type 0
IsRooted [] = Unit
IsRooted (element ∷ elements) = (element == codes "system-tests") ≡ true

abbrev pub joined : (join : List Text → Text) → Text → List Text → Text
joined join path [] = path
joined join path (element ∷ elements) = join (element ∷ elements)

from_root-joined :
    (join : List Text → Text) (path : Text) (before rest : List Text)
    → All IsOther before
    → IsRooted rest
    → or_path path join (from_root (before ++ rest)) ≡ joined join path rest
unfolding from_root
from_root-joined join path [] [] others rooted = refl
from_root-joined join path [] (element ∷ elements) others rooted = rw rooted refl
from_root-joined join path (element ∷ before) rest (here, others) rooted =
    rw here (from_root-joined join path before rest others rooted)

-- `cleanPath` joins the elements of a path from the first one that is `system-tests`, and returns a path
-- without such an element as it is.
pub clean_path-joined :
    (join : List Text → Text) (path : Text) (before rest : List Text)
    → All IsOther before
    → IsRooted rest
    → split separator path ≡ before ++ rest
    → clean_path join path ≡ joined join path rest
unfolding clean_path
clean_path-joined join path before rest others rooted parts =
    ap (λ p. or_path path join (from_root p)) parts
    ∙ from_root-joined join path before rest others rooted
