-- ===== src/Report/Cache/Disk/Paths.antt =====
-- Which paths lie below a directory.
use medik8s_system_tests.Base.{
  ◌≡◌, refl, sym, ap, ◌∙◌, inl, inr, true, false, [], ◌∷◌, ◌++◌, arith, Bool-cases, ◌==◌,
}
use medik8s_system_tests.Go.Strings.{Text, codes, text_eq, text_beq_iff, has_prefix}
use medik8s_system_tests.Report.Cache.Disk.{File, has_slash, with_slash, path_of, is_under}

pub has_prefix-append : (a b : Text) → has_prefix (a ++ b) a ≡ true
unfolding has_prefix
has_prefix-append [] b = refl
has_prefix-append (c ∷ a) b = ground (arith, has_prefix-append a b)

has_prefix-prefix : (text a b : Text) → has_prefix text (a ++ b) ≡ true → has_prefix text a ≡ true
unfolding has_prefix
has_prefix-prefix text [] b h = refl
has_prefix-prefix [] (c ∷ a) b h = absurd (ground (arith, h))
has_prefix-prefix (d ∷ text) (c ∷ a) b h = ground (arith, h, has_prefix-prefix text a b)

-- A text that starts with some text and a slash has a slash.
has_slash-has_prefix :
    (text a : Text) → has_prefix text (a ++ codes "/") ≡ true → has_slash text ≡ true
unfolding has_prefix has_slash
has_slash-has_prefix [] [] h = absurd (ground (arith, h))
has_slash-has_prefix [] (c ∷ a) h = absurd (ground (arith, h))
has_slash-has_prefix (d ∷ text) [] h = ground (arith, h)
has_slash-has_prefix (d ∷ text) (c ∷ a) h = ground (arith, h, has_slash-has_prefix text a)

-- A prefix that ends in a slash lies within what a name without one is appended to.
has_prefix-directory :
    (a directory name : Text)
    → has_slash name ≡ false
    → has_prefix (directory ++ name) (a ++ codes "/") ≡ true
    → has_prefix directory (a ++ codes "/") ≡ true
unfolding has_prefix
has_prefix-directory a [] name flat h = absurd (ground (arith, flat, has_slash-has_prefix name a h))
has_prefix-directory [] (d ∷ directory) name flat h = ground (arith, h)
has_prefix-directory (c ∷ a) (d ∷ directory) name flat h =
    ground (arith, h, has_prefix-directory a directory name flat)

with_slash-append : (directory : Text) → (a : Text) × (with_slash directory ≡ a ++ codes "/")
unfolding with_slash
with_slash-append directory = elim (Bool-cases (directory == codes "/")) [
  | inl e ↦ ([], rw e ((text_beq_iff directory (codes "/")).0 e))
  | inr e ↦ (directory, rw e refl)
]

is_under-has_prefix :
    {C : Type 0} (directory name : Text) (file : File C)
    → is_under (with_slash directory ++ name) file ≡ true
    → has_prefix (path_of file) (with_slash directory) ≡ true
unfolding is_under
is_under-has_prefix directory name file h =
    elim (Bool-cases (path_of file == with_slash directory ++ name)) [
      | inl e ↦
          ap (λ t. has_prefix t (with_slash directory))
            ((text_beq_iff (path_of file) (with_slash directory ++ name)).0 e)
          ∙ has_prefix-append (with_slash directory) name
      | inr e ↦
          let below : has_prefix (path_of file) ((with_slash directory ++ name) ++ codes "/")
              ≡ true =
            ground (arith, e, h) in
          has_prefix-prefix (path_of file) (with_slash directory) name
            (has_prefix-prefix (path_of file) (with_slash directory ++ name) (codes "/") below)
    ]

-- What is removed in a directory is no file of another one that does not lie in or below it.
pub is_under-apart :
    {C : Type 0} (working_directory name directory : Text) (file : File C)
    → has_prefix (with_slash directory) (with_slash working_directory) ≡ false
    → file.directory ≡ directory
    → has_slash file.name ≡ false
    → is_under (with_slash working_directory ++ name) file ≡ false
is_under-apart working_directory name directory file apart at flat =
    elim (Bool-cases (is_under (with_slash working_directory ++ name) file)) [
      | inl e ↦
          let (a, ends) = with_slash-append working_directory in
          let starts : has_prefix (with_slash directory ++ file.name) (a ++ codes "/") ≡ true =
            sym (ap (λ t. has_prefix (with_slash directory ++ file.name) t) ends)
            ∙ sym
                (ap (λ t. has_prefix (with_slash t ++ file.name) (with_slash working_directory)) at)
            ∙ is_under-has_prefix working_directory name file e in
          let within : has_prefix (with_slash directory) (with_slash working_directory) ≡ true =
            ap (λ t. has_prefix (with_slash directory) t) ends
            ∙ has_prefix-directory a (with_slash directory) file.name flat starts in
          absurd (ground (arith, apart, within))
      | inr e ↦ e
    ]
