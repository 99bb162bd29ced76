-- ===== src/Report/Command.antt =====
-- internal/report/command.go: the commands that the tool runs. The machine is a parameter: `removes_all`
-- and `execute` change its state, of any type, and `execute` gives the output of a command or, when it fails,
-- nothing.
pub mod Revisions
mod Tests
use medik8s_system_tests.Base.{
  ℕ, ◌≡◌, Bool, true, false, not, List, [], ◌∷◌, ◌++◌, Option, none, some, length, leb,
  if◌then◌else◌, ◌==◌, nat_eq, map, reverse,
}
use medik8s_system_tests.Go.Strings.{
  Text, codes, text_eq, split, cut, trim_space, trim_prefix, trim_by, is_space,
}
use medik8s_system_tests.Report.Cache.{set_revision}

-- What the source sets of an `exec.Cmd`; `environment` is what it adds to the process's own.
pub record Command : Type 0 where
  pub program : Text
  pub arguments : List Text
  pub directory : Text
  pub environment : List Text

abbrev pub git : List Text → Text → Command
git arguments directory = record {
  program = codes "git";
  arguments = arguments;
  directory = directory;
  environment = [];
}

pub record Machine {ℓ} (W : Type ℓ) : Type ℓ where
  pub removes_all : Text → W → W × Bool
  pub execute : Command → W → W × Option Text
  pub join : Text → Text → Text

-- `https://github.com/medik8s/system-tests.git`
abbrev pub remote_url : Text
remote_url = codes "https://github.com/medik8s/system-tests.git"

module _ {ℓ} {W : Type ℓ} (machine : Machine W) where
  -- `execCommandWithStdout`
  unfoldable pub exec_command_with_stdout : Command → W → W × Option Text
  exec_command_with_stdout = machine.execute

  abbrev pub is_done : W × Option Text → W × Bool
  is_done (w, none) = (w, false)
  is_done (w, some stdout) = (w, true)

  -- `execCommand`
  unfoldable pub exec_command : Command → W → W × Bool
  exec_command command w = is_done (machine.execute command w)

  abbrev pub give : Text → W × Bool → W × Option Text
  give path (w, false) = (w, none)
  give path (w, true) = (w, some path)

  -- `CloneRepo`, from the removal of what is there.
  unfoldable pub clone_removed : (local_path repo branch : Text) → W × Bool → W × Option Text
  unfolding exec_command
  clone_removed local_path repo branch (w, false) = (w, none)
  clone_removed local_path repo branch (w, true) =
      give (machine.join local_path (codes "system-tests")) (
        exec_command
          (git (codes "clone" ∷ codes "-b" ∷ branch ∷ repo ∷ codes "system-tests" ∷ []) local_path)
          w)

  unfoldable pub clone_repo : (local_path repo branch : Text) → W → W × Option Text
  unfolding clone_removed
  clone_repo local_path repo branch w =
      clone_removed local_path repo branch
        (machine.removes_all (machine.join local_path (codes "system-tests")) w)

  unfoldable pub dry_run : (cloned_path : Text) → W → W × Option Text
  unfolding exec_command
  dry_run cloned_path w =
      let command : Command = record {
        program = codes "ginkgo";
        arguments =
            codes "--json-report=report.json"
            ∷ codes "-dry-run"
            ∷ codes "-v"
            ∷ codes "-r"
            ∷ codes "./tests"
            ∷ [];
        directory = cloned_path;
        environment = codes "ECO_DRY_RUN=true" ∷ [];
      } in
      give (machine.join cloned_path (codes "report.json")) (exec_command command w)

  abbrev pub map_answer {κ} : {A : Type κ} → (Text → A) → W × Option Text → W × Option A
  map_answer use_it (w, none) = (w, none)
  map_answer use_it (w, some stdout) = (w, some (use_it stdout))

  unfoldable pub get_repo_revision : (repo_path : Text) → W → W × Option Text
  unfolding exec_command_with_stdout trim_by is_space
  get_repo_revision repo_path w =
      map_answer trim_space
        (exec_command_with_stdout (git (codes "rev-parse" ∷ codes "HEAD" ∷ []) repo_path) w)

  unfoldable pub get_repo_branch : (repo_path : Text) → W → W × Option Text
  unfolding exec_command_with_stdout trim_by is_space
  get_repo_branch repo_path w =
      map_answer trim_space
        (exec_command_with_stdout (git (codes "branch" ∷ codes "--show-current" ∷ []) repo_path) w)

  unfoldable pub has_local_changes : (repo_path : Text) → W → W × Option Bool
  unfolding exec_command_with_stdout
  has_local_changes repo_path w =
      map_answer (λ stdout. not (stdout == []))
        (exec_command_with_stdout (git (codes "status" ∷ codes "--porcelain" ∷ []) repo_path) w)

-- The lines that a `bufio.Scanner` gives: the last one only if it is not empty, each without the
-- carriage return at its end.
unfoldable pub drop_return : Text → Text
drop_return [] = []
drop_return (c ∷ []) = if c == 13 then [] else c ∷ []
drop_return (c ∷ d ∷ line) = c ∷ drop_return (d ∷ line)

unfoldable pub raw_lines : List Text → List Text
raw_lines [] = []
raw_lines (line ∷ []) = if line == [] then [] else line ∷ []
raw_lines (line ∷ next ∷ lines) = line ∷ raw_lines (next ∷ lines)

-- `bufio.MaxScanTokenSize`: a line of this length or more is an error.
abbrev pub max_scan_token_size : ℕ
max_scan_token_size = 65536

abbrev pub heads : Text
heads = codes "refs/heads/"

abbrev pub add_revision :
    Option (Text × Text)
    → (next : List (Text × Text) → Option (List (Text × Text))) → List (Text × Text)
    → Option (List (Text × Text))
add_revision none next revisions = none
add_revision (some (revision, branch)) next revisions =
    next (set_revision (trim_prefix branch heads) revision revisions)

-- The loop over the lines of the output. A line that is too long stops the scanner, and a line without
-- a tab the loop; both end in an error.
unfoldable pub parse_revisions : List Text → List (Text × Text) → Option (List (Text × Text))
unfolding cut set_revision trim_prefix drop_return
parse_revisions [] revisions = some revisions
parse_revisions (line ∷ lines) revisions =
    let next = parse_revisions lines in
    if leb max_scan_token_size (length line)
    then none
    else add_revision (cut (drop_return line) (9 ∷ [])) next revisions

unfoldable pub parse_output : Option Text → Option (List (Text × Text))
unfolding parse_revisions raw_lines split
parse_output none = none
parse_output (some stdout) = parse_revisions (raw_lines (split 10 stdout)) []

module _ {ℓ} {W : Type ℓ} (machine : Machine W) where
  abbrev pub then_parse : W × Option Text → W × Option (List (Text × Text))
  then_parse (w, stdout) = (w, parse_output stdout)

  unfoldable pub get_remote_revisions :
      (repo : Text) (branches : List Text) → W → W × Option (List (Text × Text))
  unfolding exec_command_with_stdout parse_output
  get_remote_revisions repo branches w = then_parse (
      exec_command_with_stdout machine
        (git (codes "ls-remote" ∷ repo ∷ map (λ branch. heads ++ branch) branches) []) w)
