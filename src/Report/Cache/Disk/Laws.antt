-- ===== src/Report/Cache/Disk/Laws.antt =====
-- What a file holds after it is written, and that another file is left alone.
use medik8s_system_tests.Base.{
  ◌≡◌, ◌≢◌, ◌↔◌, refl, sym, ap, ◌∙◌, ◌&&◌, not, inl, inr, true, false, List, [], ◌∷◌, arith, All,
  Any, Bool-cases, All-append, All-map, Any-append_left, Any-append_right, ◌==◌,
}
use medik8s_system_tests.Go.Strings.{Text, text_eq, text_beq_iff}
use medik8s_system_tests.Report.Cache.Disk.{
  File, has_slash, read_dir, is_at, has_file, overwrite, new_file, write_file,
}

pub is_at-IsAt {ℓ} :
    {C : Type ℓ} (directory name : Text) (file : File C)
    → (is_at directory name file ≡ true) ↔ ((file.directory ≡ directory) × (file.name ≡ name))
is_at-IsAt directory name file =
    ground (arith, text_beq_iff file.directory directory, text_beq_iff file.name name)

module _ {ℓ} {C : Type ℓ} (directory name : Text) where
  -- The file is there, and holds this.
  abbrev pub Holds : C → List (File C) → Type ℓ
  Holds content files =
      All (λ file. is_at directory name file ≡ true → file.content ≡ content) files
      × Any (λ file. is_at directory name file ≡ true) files

  has_file-Any :
      (files : List (File C))
      → has_file directory name files ≡ true
      → Any (λ file. is_at directory name file ≡ true) files
  unfolding has_file
  has_file-Any [] h = absurd (ground arith)
  has_file-Any (file ∷ files) h = elim (Bool-cases (is_at directory name file)) [
    | inl e ↦ inl e
    | inr e ↦ inr (has_file-Any files (ground (arith, e, h)))
  ]

  has_file-All :
      (files : List (File C))
      → has_file directory name files ≡ false
      → All (λ file. is_at directory name file ≡ false) files
  unfolding has_file
  has_file-All [] h = tt
  has_file-All (file ∷ files) h = (ground (arith, h), has_file-All files (ground (arith, h)))

  overwrite-Holds :
      (content : C) (files : List (File C))
      → All
          (λ file. is_at directory name file ≡ true → file.content ≡ content)
          (overwrite directory name content files)
  unfolding overwrite
  overwrite-Holds content [] = tt
  overwrite-Holds content (file ∷ files) = elim (Bool-cases (is_at directory name file)) [
    | inl e ↦ rw e ((λ there. refl), overwrite-Holds content files)
    | inr e ↦ rw e ((λ there. absurd (ground (arith, e, there))), overwrite-Holds content files)
  ]

  -- A file keeps its name under it.
  overwrite-Any :
      (sought : Text) (content : C) (files : List (File C))
      → Any (λ file. is_at directory sought file ≡ true) files
      → Any (λ file. is_at directory sought file ≡ true) (overwrite directory name content files)
  unfolding overwrite
  overwrite-Any sought content [] h = elim h [ ]
  overwrite-Any sought content (file ∷ files) (inr later) =
      inr (overwrite-Any sought content files later)
  overwrite-Any sought content (file ∷ files) (inl here) =
      elim (Bool-cases (is_at directory name file)) [
        | inl e ↦ rw e (inl here)
        | inr e ↦ rw e (inl here)
      ]

  module _ (sought : Text) (apart : name ≢ sought) where
    apart-file :
        (file : File C) → is_at directory name file ≡ true → is_at directory sought file ≡ true → ⊥
    apart-file file here there = apart (
        sym ((is_at-IsAt directory name file).0 here).1
        ∙ ((is_at-IsAt directory sought file).0 there).1)

    overwrite-other :
        (held content : C) (files : List (File C))
        → All (λ file. is_at directory sought file ≡ true → file.content ≡ held) files
        → All
            (λ file. is_at directory sought file ≡ true → file.content ≡ held)
            (overwrite directory name content files)
    unfolding overwrite
    overwrite-other held content [] h = tt
    overwrite-other held content (file ∷ files) (keeps, h) =
        elim (Bool-cases (is_at directory name file)) [
          | inl e ↦
              rw e
                ((λ there. absurd (apart-file file e there)), overwrite-other held content files h)
          | inr e ↦ rw e (keeps, overwrite-other held content files h)
        ]

    pub write_file-other :
        (held content : C) (files : List (File C))
        → All (λ file. is_at directory sought file ≡ true → file.content ≡ held) files
          × Any (λ file. is_at directory sought file ≡ true) files
        → All
            (λ file. is_at directory sought file ≡ true → file.content ≡ held)
            (write_file directory name content files)
          × Any
              (λ file. is_at directory sought file ≡ true)
              (write_file directory name content files)
    unfolding write_file
    write_file-other held content files (all, any) =
        elim (Bool-cases (has_file directory name files)) [
          | inl e ↦
              rw e (overwrite-other held content files all, overwrite-Any sought content files any)
          | inr e ↦
              let made : File C = new_file directory name content in
              rw e (
                All-append (λ file. is_at directory sought file ≡ true → file.content ≡ held) files
                    (made ∷ []) all
                    (
                      (λ there. absurd (
                          apart-file made ((is_at-IsAt directory name made).1 (refl, refl)) there)),
                      tt,
                    ),
                Any-append_left (λ file. is_at directory sought file ≡ true) files (made ∷ []) any,
              )
        ]

  pub write_file-Holds :
      (content : C) (files : List (File C))
      → Holds content (write_file directory name content files)
  unfolding write_file
  write_file-Holds content files = elim (Bool-cases (has_file directory name files)) [
    | inl e ↦
        rw e
          (overwrite-Holds content files, overwrite-Any name content files (has_file-Any files e))
    | inr e ↦
        let here : is_at directory name (new_file directory name content) ≡ true =
          (is_at-IsAt directory name (new_file directory name content)).1 (refl, refl) in
        rw e (
          All-append (λ file. is_at directory name file ≡ true → file.content ≡ content) files
              (new_file directory name content ∷ [])
              (All-map files (λ file apart there. absurd (ground (arith, apart, there)))
                (has_file-All files e))
              ((λ there. refl), tt),
          Any-append_right (λ file. is_at directory name file ≡ true) files
              (new_file directory name content ∷ []) (inl here),
        )
  ]

-- A file of the directory itself.
pub in_directory :
    {C : Type 0} (directory : Text) (file : File C)
    → (file.directory == directory && not (has_slash file.name)) ≡ true
    → (file.directory ≡ directory) × (has_slash file.name ≡ false)
in_directory directory file h =
    ((text_beq_iff file.directory directory).0 (ground (arith, h)), ground (arith, h))

-- What is listed of a directory are its files.
pub read_dir-All {κ} :
    {C : Type 0} (P : File C → Type κ) (directory : Text) (files : List (File C))
    → All P files
    → All (λ file. P file × (file.directory ≡ directory)) (read_dir directory files)
unfolding read_dir
read_dir-All P directory [] h = tt
read_dir-All P directory (file ∷ files) (here, h) =
    elim (Bool-cases (file.directory == directory && not (has_slash file.name))) [
      | inl e ↦ rw e ((here, (in_directory directory file e).0), read_dir-All P directory files h)
      | inr e ↦ rw e (read_dir-All P directory files h)
    ]

pub read_dir-Any :
    {C : Type 0} (directory name : Text) (files : List (File C))
    → has_slash name ≡ false
    → Any (λ file. is_at directory name file ≡ true) files
    → Any (λ file. is_at directory name file ≡ true) (read_dir directory files)
unfolding read_dir
read_dir-Any directory name [] flat h = elim h [ ]
read_dir-Any directory name (file ∷ files) flat h =
    elim (Bool-cases (file.directory == directory && not (has_slash file.name))) [
      | inl e ↦ rw e (elim h [
        | inl here ↦ inl here
        | inr later ↦ inr (read_dir-Any directory name files flat later)
      ])
      | inr e ↦ rw e (elim h [
        | inl here ↦
            let (at, is) = (is_at-IsAt directory name file).0 here in
            let there : (file.directory == directory) ≡ true =
              (text_beq_iff file.directory directory).1 at in
            let plain : has_slash file.name ≡ false = ap has_slash is ∙ flat in
            absurd (ground (arith, e, there, plain))
        | inr later ↦ read_dir-Any directory name files flat later
      ])
    ]
