-- ===== src/Blanklines/Run.antt =====
-- `run` and `writeFixedFile`. The flags, the loading of the packages and the outcome of the calls on the
-- disk are parameters; a disk gives the content of the files that it has.
pub mod Checked
pub mod Fixed
use medik8s_system_tests.Base.{
  ℕ, ◌≡◌, Bool, true, false, not, ◌&&◌, ◌||◌, List, [], ◌∷◌, ◌++◌, Option, none, some, length,
  if◌then◌else◌, ◌==◌, nat_eq,
}
use medik8s_system_tests.Go.Strings.{Text, codes, text_eq}
use medik8s_system_tests.Blanklines.{Span, Node, Object, Position, check_node, remove_blank_lines}

-- A file of a package as `packages.Load` gives it.
pub record SourceFile : Type 0 where
  pub filename : Text
  pub is_generated : Bool
  pub syntax : Node
  pub comments : List Span
  pub uses : Span → Option Object

pub data Fault : Type 0 where
  bad_flags load_failed loading_errors no_packages checks_failed : Fault
  read_failed stat_failed write_failed : (filename : Text) → Fault

-- What is written to the standard error.
pub data Message : Type 0 where
  blank_line : (filename : Text) → Position → Message
  removed : (filename : Text) → ℕ → Message

pub record State : Type 0 where
  pub seen : List Text
  pub found : Bool
  pub disk : Text → Option Text
  pub messages : List Message

-- `print_errors` counts the errors of the packages; `torn` is what a write that fails leaves.
pub record Host : Type 0 where
  pub parse_flags : List Text → Option (Bool × List Text)
  pub load_packages : List Text → Option (List (List SourceFile))
  pub print_errors : List (List SourceFile) → ℕ
  pub sort_slice : List Position → List Position
  pub stats : Text → Bool
  pub writes : Text → Bool
  pub torn : Text → Text

unfoldable pub is_seen : Text → List Text → Bool
is_seen filename [] = false
is_seen filename (other ∷ seen) = other == filename || is_seen filename seen

-- `checkFile`
abbrev pub check_file : SourceFile → (source : Text) → List Position
check_file file source = check_node file.uses file.comments source file.syntax

abbrev pub blank_messages : Text → List Position → List Message
blank_messages filename [] = []
blank_messages filename (position ∷ findings) =
    blank_line filename position ∷ blank_messages filename findings

-- A disk on which a file is written.
abbrev pub write : Text → Text → (Text → Option Text) → Text → Option Text
write filename content disk name = if name == filename then some content else disk name

abbrev pub note_removed : Text → List Position → State × Option Fault → State × Option Fault
note_removed filename findings (state, some fault) = (state, some fault)
note_removed filename findings (state, none) =
    (record state { messages = state.messages ++ (removed filename (length findings) ∷ []) }, none)

unfoldable pub unless_fault :
    State × Option Fault → (State → State × Option Fault) → State × Option Fault
unless_fault (state, some fault) next = (state, some fault)
unless_fault (state, none) next = next state

abbrev pub files_of : List (List SourceFile) → List SourceFile
files_of [] = []
files_of (pkg ∷ pkgs) = pkg ++ files_of pkgs

-- The end of `run`.
unfoldable pub end_run : (fix : Bool) → State → State × Option Fault
end_run fix state = if state.found && not fix then (state, some checks_failed) else (state, none)

abbrev pub start : (Text → Option Text) → State
start disk = record { seen = []; found = false; disk = disk; messages = [] }

abbrev pub is_empty : List (List SourceFile) → Bool
is_empty [] = true
is_empty (pkg ∷ pkgs) = false

abbrev pub or_all : List Text → List Text
or_all [] = codes "./..." ∷ []
or_all (pattern ∷ patterns) = pattern ∷ patterns

module _ (host : Host) where
  -- `writeFixedFile`
  unfoldable pub write_fixed_file :
      Text → (source : Text) → List Position → State → State × Option Fault
  write_fixed_file filename source findings state =
      let fixed = remove_blank_lines host.sort_slice source findings in
      if not (host.stats filename)
      then (state, some (stat_failed filename))
      else if host.writes filename
      then (record state { disk = write filename fixed state.disk }, none)
      else (
        record state { disk = write filename (host.torn fixed) state.disk },
        some (write_failed filename),
      )

  -- What is done about the positions that are found.
  unfoldable pub report_findings :
      (fix : Bool) → Text → (source : Text) → List Position → State → State × Option Fault
  unfolding write_fixed_file
  report_findings fix filename source [] state = (state, none)
  report_findings true filename source (position ∷ findings) state =
      note_removed filename (position ∷ findings)
        (write_fixed_file filename source (position ∷ findings) (record state { found = true }))
  report_findings false filename source (position ∷ findings) state = (
    record state {
      found = true;
      messages = state.messages ++ blank_messages filename (position ∷ findings);
    },
    none,
  )

  unfoldable pub check_source :
      (fix : Bool) → SourceFile → Option Text → State → State × Option Fault
  unfolding report_findings
  check_source fix file none state = (state, some (read_failed file.filename))
  check_source fix file (some source) state =
      report_findings fix file.filename source (check_file file source) state

  -- The body of the loop over the files.
  unfoldable pub visit : (fix : Bool) → SourceFile → State → State × Option Fault
  unfolding check_source is_seen
  visit fix file state =
      let checked =
        check_source fix file (state.disk file.filename)
          (record state { seen = file.filename ∷ state.seen }) in
      if is_seen file.filename state.seen || file.is_generated then (state, none) else checked

  unfoldable pub visit_each : (fix : Bool) → List SourceFile → State → State × Option Fault
  unfolding visit unless_fault
  visit_each fix [] state = (state, none)
  visit_each fix (file ∷ files) state = unless_fault (visit fix file state) (visit_each fix files)

  -- `run` behind the flags, with what `packages.Load` gives.
  unfoldable pub check_packages :
      (fix : Bool) → Option (List (List SourceFile)) → (Text → Option Text) → State × Option Fault
  unfolding visit_each end_run
  check_packages fix none disk = (start disk, some load_failed)
  check_packages fix (some loaded) disk =
      let checked = unless_fault (visit_each fix (files_of loaded) (start disk)) (end_run fix) in
      if not (host.print_errors loaded == 0)
      then (start disk, some loading_errors)
      else if is_empty loaded
      then (start disk, some no_packages)
      else checked

  unfoldable pub run_flags : Option (Bool × List Text) → (Text → Option Text) → State × Option Fault
  unfolding check_packages
  run_flags none disk = (start disk, some bad_flags)
  run_flags (some (fix, patterns)) disk =
      check_packages fix (host.load_packages (or_all patterns)) disk

  unfoldable pub run : (args : List Text) → (Text → Option Text) → State × Option Fault
  unfolding run_flags
  run args disk = run_flags (host.parse_flags args) disk
