-- ===== src/Blanklines/Run/Checked.antt =====
-- What a run without `-fix` that returns no error says of the files.
use medik8s_system_tests.Base.{
  ◌≡◌, refl, sym, ap, ◌∙◌, subst, ◌⊎◌, inl, inr, true, false, not, ◌||◌, List, [], ◌∷◌, Option,
  none, some, All, Any, All-map, arith, Bool-cases, ◌==◌, nat_eq,
}
use medik8s_system_tests.Go.Strings.{Text, text_eq, text_beq_iff}
use medik8s_system_tests.Blanklines.{Position}
use medik8s_system_tests.Blanklines.Run.{
  Host, SourceFile, State, Fault, check_file, is_seen, report_findings, check_source, visit,
  unless_fault, visit_each, end_run, files_of, start, is_empty, check_packages, run, run_flags,
  or_all,
}

-- `checkFile` finds nothing in the file.
abbrev pub IsClean : (Text → Option Text) → SourceFile → Type 0
IsClean disk file =
    (source : Text) × (disk file.filename ≡ some source) × (check_file file source ≡ [])

-- What the body of the loop did, when it went on.
abbrev Visited : SourceFile → State → State → Type 0
Visited file before after =
    (((is_seen file.filename before.seen ≡ true) ⊎ (file.is_generated ≡ true)) × (after ≡ before))
    ⊎ ((IsClean before.disk file
          × (after.seen ≡ file.filename ∷ before.seen)
          × (after.disk ≡ before.disk)
          × (after.found ≡ before.found))
        ⊎ ((after.found ≡ true) × (after.disk ≡ before.disk)))

module _ (host : Host) where
  report_findings-Visited :
      (file : SourceFile) (source : Text) (findings : List Position) (before after : State)
      → before.disk file.filename ≡ some source
      → check_file file source ≡ findings
      → report_findings host false file.filename source findings
          (record before { seen = file.filename ∷ before.seen })
        ≡ (after, none)
      → Visited file before after
  unfolding report_findings
  report_findings-Visited file source [] before after at found h =
      let same : record before { seen = file.filename ∷ before.seen } ≡ after = ap (λ t. t.0) h in
      inr (
        inl (
          (source, at, found),
          sym (ap (λ (s : State). s.seen) same),
          sym (ap (λ (s : State). s.disk) same),
          sym (ap (λ (s : State). s.found) same),
        ))
  report_findings-Visited file source (position ∷ findings) before after at found h =
      inr (inr (sym (ap (λ t. t.0.found) h), sym (ap (λ t. t.0.disk) h)))

  check_source-Visited :
      (file : SourceFile) (read : Option Text) (before after : State)
      → before.disk file.filename ≡ read
      → check_source host false file read (record before { seen = file.filename ∷ before.seen })
        ≡ (after, none)
      → Visited file before after
  unfolding check_source
  check_source-Visited file none before after at h = absurd (ground (arith, ap (λ t. t.1) h))
  check_source-Visited file (some source) before after at h =
      report_findings-Visited file source (check_file file source) before after at refl h

  visit-Visited :
      (file : SourceFile) (before after : State)
      → visit host false file before ≡ (after, none)
      → Visited file before after
  unfolding visit
  visit-Visited file before after =
      elim (Bool-cases (is_seen file.filename before.seen || file.is_generated)) [
        | inl e ↦ rw e (λ h.
            let why : (is_seen file.filename before.seen ≡ true) ⊎ (file.is_generated ≡ true) =
              ground (arith, e) in
            inl (why, sym (ap (λ t. t.0) h)))
        | inr e ↦ rw e (check_source-Visited file (before.disk file.filename) before after refl)
      ]

  unless_fault-none :
      (r : State × Option Fault) (next : State → State × Option Fault) (after : State)
      → unless_fault r next ≡ (after, none)
      → (r.1 ≡ none) × (next r.0 ≡ (after, none))
  unfolding unless_fault
  unless_fault-none (state, none) next after h = (refl, h)
  unless_fault-none (state, some fault) next after h = absurd (ground (arith, ap (λ t. t.1) h))

  -- Once something is found, it stays so.
  visit_each-found :
      (files : List SourceFile) (before after : State)
      → visit_each host false files before ≡ (after, none)
      → before.found ≡ true
      → after.found ≡ true
  unfolding visit_each
  visit_each-found [] before after h found = sym (ap (λ t. t.0.found) h) ∙ found
  visit_each-found (file ∷ files) before after h found =
      let step = visit host false file before in
      let (fine, rest) = unless_fault-none step (visit_each host false files) after h in
      visit_each-found files step.0 after rest
        (elim (visit-Visited file before step.0 (λ k. (step.0, fine k))) [
          | inl (why, same) ↦ ap (λ (s : State). s.found) same ∙ found
          | inr (inl (clean, seen, disk, kept)) ↦ kept ∙ found
          | inr (inr (dirty, disk)) ↦ dirty
        ])

  module _ (disk : Text → Option Text) (P : Text → Type 0) where
    is_seen-P :
        (filename : Text) (seen : List Text)
        → All P seen
        → is_seen filename seen ≡ true
        → P filename
    unfolding is_seen
    is_seen-P filename [] h seen = absurd (ground (arith, seen))
    is_seen-P filename (other ∷ names) (here, h) seen = elim (Bool-cases (other == filename)) [
      | inl e ↦ subst P ((text_beq_iff other filename).0 e) here
      | inr e ↦ is_seen-P filename names h (ground (arith, e, seen))
    ]

    visit_each-P :
        (files : List SourceFile) (before after : State)
        → before.disk ≡ disk
        → All P before.seen
        → All (λ f. IsClean disk f → P f.filename) files
        → visit_each host false files before ≡ (after, none)
        → after.found ≡ false
        → (after.disk ≡ disk) × All (λ f. (f.is_generated ≡ true) ⊎ P f.filename) files
    unfolding visit_each
    visit_each-P [] before after at good gives h quiet = (sym (ap (λ t. t.0.disk) h) ∙ at, tt)
    visit_each-P (file ∷ files) before after at good (give, gives) h quiet =
        let step = visit host false file before in
        let (fine, rest) = unless_fault-none step (visit_each host false files) after h in
        elim (visit-Visited file before step.0 (λ k. (step.0, fine k))) [
          | inl (why, same) ↦
              let (left, all) =
                visit_each-P files step.0 after (ap (λ (s : State). s.disk) same ∙ at)
                  (subst (λ (s : State). All P s.seen) (sym same) good) gives rest quiet in
              (
                left,
                (
                  elim why [
                    | inl seen ↦ inr (is_seen-P file.filename before.seen good seen)
                    | inr generated ↦ inl generated
                  ],
                  all,
                ),
              )
          | inr (inl (clean, seen, kept, found)) ↦
              let here : P file.filename = give (subst (λ d. IsClean d file) at clean) in
              let (left, all) =
                visit_each-P files step.0 after (kept ∙ at) (subst (All P) (sym seen) (here, good))
                  gives rest quiet in
              (left, (inr here, all))
          | inr (inr (dirty, kept)) ↦
              let noisy = visit_each-found files step.0 after rest dirty in
              absurd (ground (arith, noisy, quiet))
        ]

  end_run-none :
      (state after : State)
      → end_run false state ≡ (after, none)
      → (state.found ≡ false) × (state ≡ after)
  unfolding end_run
  end_run-none state after = elim (Bool-cases state.found) [
    | inl e ↦ simp e (λ h. absurd (ground (arith, ap (λ t. t.1) h)))
    | inr e ↦ simp e (λ h. (refl, ap (λ t. t.0) h))
  ]

-- Some file of the list has this name, and nothing is found in it.
abbrev pub HasClean : (Text → Option Text) → List SourceFile → Text → Type 0
HasClean disk files filename = Any (λ file. (file.filename ≡ filename) × IsClean disk file) files

HasClean-All :
    (disk : Text → Option Text) (files : List SourceFile)
    → All (λ f. IsClean disk f → HasClean disk files f.filename) files
HasClean-All disk [] = tt
HasClean-All disk (file ∷ files) = (
  (λ clean. inl (refl, clean)),
  All-map files (λ f found clean. inr (found clean)) (HasClean-All disk files),
)

check_packages-IsClean :
    (host : Host) (loaded : List (List SourceFile)) (disk : Text → Option Text) (after : State)
    → check_packages host false (some loaded) disk ≡ (after, none)
    → (after.disk ≡ disk)
      × All
          (λ f. (f.is_generated ≡ true) ⊎ HasClean disk (files_of loaded) f.filename)
          (files_of loaded)
unfolding check_packages
check_packages-IsClean host loaded disk after =
    elim (Bool-cases (not (host.print_errors loaded == 0))) [
      | inl e ↦ simp e (λ h. absurd (ground (arith, ap (λ t. t.1) h)))
      | inr e ↦ elim (Bool-cases (is_empty loaded)) [
        | inl t ↦ simp (e, t) (λ h. absurd (ground (arith, ap (λ t. t.1) h)))
        | inr t ↦
            simp (e, t)
              (λ h.
                let visited = visit_each host false (files_of loaded) (start disk) in
                let (fine, rest) = unless_fault-none host visited (end_run false) after h in
                let (quiet, same) = end_run-none host visited.0 after rest in
                let (left, all) =
                  visit_each-P host disk (HasClean disk (files_of loaded)) (files_of loaded)
                    (start disk) visited.0 refl tt (HasClean-All disk (files_of loaded))
                    (λ k. (visited.0, fine k)) quiet in
                (sym (ap (λ (s : State). s.disk) same) ∙ left, all))
      ]
    ]

-- A run without `-fix` that returns no error leaves the disk as it is, and each file of the loaded
-- packages is generated or bears the name of one of these files in which `checkFile` finds nothing.
pub run-IsClean :
    (host : Host) (args patterns : List Text) (loaded : List (List SourceFile))
    (disk : Text → Option Text) (after : State)
    → host.parse_flags args ≡ some (false, patterns)
    → host.load_packages (or_all patterns) ≡ some loaded
    → run host args disk ≡ (after, none)
    → (after.disk ≡ disk)
      × All
          (λ f. (f.is_generated ≡ true) ⊎ HasClean disk (files_of loaded) f.filename)
          (files_of loaded)
unfolding run run_flags
run-IsClean host args patterns loaded disk after flags loads h =
    check_packages-IsClean host loaded disk after (
      ap (λ l. check_packages host false l disk) (sym loads)
      ∙ ap (λ f. run_flags host f disk) (sym flags)
      ∙ h)
