-- ===== src/Report/Sum.antt =====
-- internal/report/sum.go. The files that are embedded in the program are a list of their contents, `none`
-- where one cannot be read; the sum is that of a hash that the source calls, in hexadecimal digits.
use medik8s_system_tests.Base.{List, [], ◌∷◌, Option, none, some}
use medik8s_system_tests.Go.Strings.{Text}

-- `sha256.New`, `Write` and `Sum`; `write` gives nothing where it returns an error.
pub record Hash (S : Type 0) : Type 0 where
  pub new : S
  pub write : S → Text → Option S
  pub hex_sum : S → Text

module _ {S : Type 0} (hash : Hash S) where
  abbrev pub write_some : S → Option Text → Option S
  write_some summer none = none
  write_some summer (some contents) = hash.write summer contents

  -- The loop over the files.
  unfoldable pub sum_files : List (Option Text) → S → Text
  sum_files [] summer = hash.hex_sum summer
  sum_files (file ∷ files) summer = elim (write_some summer file) [
    | none ↦ []
    | some next ↦ sum_files files next
  ]

  unfoldable pub get_source_sum : Option (List (Option Text)) → Text
  unfolding sum_files
  get_source_sum none = []
  get_source_sum (some files) = sum_files files hash.new
