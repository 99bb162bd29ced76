-- ===== src/Blanklines/Run/Fixed.antt =====
-- What a run with `-fix` does to the files.
use medik8s_system_tests.Base.{
  ◌≡◌, refl, sym, ap, ◌∙◌, subst, inl, inr, true, false, not, ◌||◌, List, [], ◌∷◌, Option, none,
  some, All, arith, Bool-cases, ◌==◌, nat_eq,
}
use medik8s_system_tests.Go.Strings.{Text, text_eq, text_beq_iff}
use medik8s_system_tests.Blanklines.{Position, remove_blank_lines}
use medik8s_system_tests.Blanklines.Lines.{words}
use medik8s_system_tests.Blanklines.Kept.{words-remove_blank_lines}
use medik8s_system_tests.Blanklines.Nested.{IsNested}
use medik8s_system_tests.Blanklines.Sorted.{SortsDescending}
use medik8s_system_tests.Blanklines.Run.{
  Host, SourceFile, State, Fault, check_file, is_seen, report_findings, check_source, visit,
  unless_fault, visit_each, end_run, files_of, start, is_empty, check_packages, run, run_flags,
  or_all, write_fixed_file, write,
}

-- The words of a file, if it is there.
abbrev pub words_of : Option Text → Option Text
words_of none = none
words_of (some text) = some (words text)

-- The nodes of a file are in order.
abbrev pub HasNested : SourceFile → Type 0
HasNested file = IsNested file.syntax

module _ (host : Host) (disk : Text → Option Text) (sorts : SortsDescending host.sort_slice)
    (writes : (name : Text) → host.writes name ≡ true) where
  -- What is not seen yet is as it was, and everything has its words.
  abbrev IsKept : State → Type 0
  IsKept state =
      (name : Text)
      → (is_seen name state.seen ≡ false → state.disk name ≡ disk name)
        × (words_of (state.disk name) ≡ words_of (disk name))

  see-IsKept :
      (filename : Text) (state : State)
      → IsKept state
      → IsKept (record state { seen = filename ∷ state.seen })
  unfolding is_seen
  see-IsKept filename state kept name =
      let (unseen, same) = kept name in ((λ h. unseen (ground (arith, h))), same)

  write-IsKept :
      (filename source fixed : Text) (state : State)
      → words fixed ≡ words source
      → disk filename ≡ some source
      → IsKept state
      → IsKept
          (record state { seen = filename ∷ state.seen; disk = write filename fixed state.disk })
  unfolding is_seen
  write-IsKept filename source fixed state same at kept name =
      elim (Bool-cases (name == filename)) [
        | inl e ↦
            let here : name ≡ filename = (text_beq_iff name filename).0 e in
            let seen : (filename == name) ≡ true = (text_beq_iff filename name).1 (sym here) in
            rw e (
              (λ h. absurd (ground (arith, h, seen))),
              ap some same ∙ sym (ap words_of (ap disk here ∙ at)),
            )
        | inr e ↦ rw e (
            let (unseen, words_same) = kept name in ((λ h. unseen (ground (arith, h))), words_same))
      ]

  report_findings-IsKept :
      (file : SourceFile) (source : Text) (findings : List Position) (state : State)
      → check_file file source ≡ findings
      → HasNested file
      → disk file.filename ≡ some source
      → IsKept state
      → IsKept
          (report_findings host true file.filename source findings
            (record state { seen = file.filename ∷ state.seen })).0
  unfolding report_findings write_fixed_file
  report_findings-IsKept file source [] state found nested at kept =
      see-IsKept file.filename state kept
  report_findings-IsKept file source (position ∷ findings) state found nested at kept =
      let same : words (remove_blank_lines host.sort_slice source (position ∷ findings))
          ≡ words source =
        subst (λ f. words (remove_blank_lines host.sort_slice source f) ≡ words source) found
          (words-remove_blank_lines file.uses file.comments source host.sort_slice file.syntax sorts
            nested) in
      elim (Bool-cases (host.stats file.filename)) [
        | inl e ↦
            rw (e, writes file.filename)
              (write-IsKept file.filename source
                (remove_blank_lines host.sort_slice source (position ∷ findings)) state same at
                kept)
        | inr e ↦ rw e (see-IsKept file.filename state kept)
      ]

  check_source-IsKept :
      (file : SourceFile) (read : Option Text) (state : State)
      → disk file.filename ≡ read
      → HasNested file
      → IsKept state
      → IsKept
          (check_source host true file read (record state { seen = file.filename ∷ state.seen })).0
  unfolding check_source
  check_source-IsKept file none state at nested kept = see-IsKept file.filename state kept
  check_source-IsKept file (some source) state at nested kept =
      report_findings-IsKept file source (check_file file source) state refl nested at kept

  visit-IsKept :
      (file : SourceFile) (state : State)
      → HasNested file
      → IsKept state
      → IsKept (visit host true file state).0
  unfolding visit
  visit-IsKept file state nested kept =
      elim (Bool-cases (is_seen file.filename state.seen || file.is_generated)) [
        | inl e ↦ rw e kept
        | inr e ↦
            let (unseen, same) = kept file.filename in
            let at : disk file.filename ≡ state.disk file.filename =
              sym (unseen (ground (arith, e))) in
            rw e (check_source-IsKept file (state.disk file.filename) state at nested kept)
      ]

  unless_fault-IsKept :
      (r : State × Option Fault) (next : State → State × Option Fault)
      → IsKept r.0
      → ((state : State) → IsKept state → IsKept (next state).0)
      → IsKept (unless_fault r next).0
  unfolding unless_fault
  unless_fault-IsKept (state, some fault) next kept goes = kept
  unless_fault-IsKept (state, none) next kept goes = goes state kept

  visit_each-IsKept :
      (files : List SourceFile) (state : State)
      → All HasNested files
      → IsKept state
      → IsKept (visit_each host true files state).0
  unfolding visit_each
  visit_each-IsKept [] state nested kept = kept
  visit_each-IsKept (file ∷ files) state (this, nested) kept =
      unless_fault-IsKept (visit host true file state) (visit_each host true files)
        (visit-IsKept file state this kept) (λ later. visit_each-IsKept files later nested)

  end_run-IsKept : (state : State) → IsKept state → IsKept (end_run true state).0
  unfolding end_run
  end_run-IsKept state kept = elim (Bool-cases state.found) [
    | inl e ↦ simp e kept
    | inr e ↦ simp e kept
  ]

  start-IsKept : IsKept (start disk)
  start-IsKept name = ((λ h. refl), refl)

  check_packages-IsKept :
      (loaded : Option (List (List SourceFile)))
      → ((packages : List (List SourceFile))
          → loaded ≡ some packages
          → All HasNested (files_of packages))
      → IsKept (check_packages host true loaded disk).0
  unfolding check_packages
  check_packages-IsKept none nested = start-IsKept
  check_packages-IsKept (some loaded) nested =
      elim (Bool-cases (not (host.print_errors loaded == 0))) [
        | inl e ↦ simp e start-IsKept
        | inr e ↦ elim (Bool-cases (is_empty loaded)) [
          | inl t ↦ simp (e, t) start-IsKept
          | inr t ↦
              simp (e, t)
                (unless_fault-IsKept (visit_each host true (files_of loaded) (start disk))
                  (end_run true)
                  (visit_each-IsKept (files_of loaded) (start disk) (nested loaded refl)
                    start-IsKept)
                  end_run-IsKept)
        ]
      ]

  -- A run with `-fix` leaves each file on the disk with its words, whether it ends in an error or not,
  -- when every write succeeds, the nodes of each loaded file are in order and `sort.Slice` puts the
  -- positions it is given from the greatest offset to the least.
  pub words-run :
      (args patterns : List Text)
      → host.parse_flags args ≡ some (true, patterns)
      → ((packages : List (List SourceFile))
          → host.load_packages (or_all patterns) ≡ some packages
          → All HasNested (files_of packages))
      → (name : Text) → words_of ((run host args disk).0.disk name) ≡ words_of (disk name)
  unfolding run run_flags
  words-run args patterns flags nested name =
      ap (λ f. words_of ((run_flags host f disk).0.disk name)) flags
      ∙ (check_packages-IsKept (host.load_packages (or_all patterns)) nested name).1
