-- ===== src/Report/Template/Tests.antt =====
-- A run of `cleanPath`.
use medik8s_system_tests.Base.{◌≡◌, refl, List, [], ◌∷◌, ◌++◌}
use medik8s_system_tests.Go.Strings.{Text, codes, split}
use medik8s_system_tests.Report.Template.{clean_path}
use medik8s_system_tests.Report.Template.Clean.{clean_path-joined}

abbrev join : List Text → Text
join [] = []
join (element ∷ elements) = element ++ (codes "/" ++ join elements)

abbrev path : Text
path = codes "/home/system-tests/a"

parts : split 47 path ≡ ([] ∷ codes "home" ∷ []) ++ (codes "system-tests" ∷ codes "a" ∷ [])
unfolding split
parts = refl

cleaned : clean_path join path ≡ codes "system-tests/a/"
cleaned =
    clean_path-joined join path ([] ∷ codes "home" ∷ []) (codes "system-tests" ∷ codes "a" ∷ [])
      (refl, (refl, tt)) refl parts
