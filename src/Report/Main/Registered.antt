-- ===== src/Report/Main/Registered.antt =====
-- The flags that `init` registers, and what the command line sets. How `flag.Parse` reads the command line
-- is a parameter: from the flags that are registered it gives the values that are assigned, in their
-- order, or fails and ends the program with 2. The flags of `klog` are left out.
use medik8s_system_tests.Base.{Bool, false, List, [], ◌∷◌, Option, none, some}
use medik8s_system_tests.Go.Strings.{Text, codes}
use medik8s_system_tests.Report.Cache.Disk.{File}
use medik8s_system_tests.Report.Main.{Tool, Flags, Finished, exit_2}
use medik8s_system_tests.Report.Main.Start.{main, finished}

-- A variable that a flag sets, with its value.
pub data Assignment : Type 0 where
  help_is clean_is : Bool → Assignment
  action_url_is branch_is output_is : Text → Assignment

-- The name of a flag, and its default.
pub record Registration : Type 0 where
  pub name : Text
  pub default_value : Assignment

abbrev flag : Text → Assignment → Registration
flag name default_value = record { name = name; default_value = default_value }

-- `init`
abbrev pub registered : List Registration
registered =
    flag (codes "help") (help_is false)
    ∷ flag (codes "h") (help_is false)
    ∷ flag (codes "action-url") (action_url_is (codes "/"))
    ∷ flag (codes "a") (action_url_is (codes "/"))
    ∷ flag (codes "branch") (branch_is [])
    ∷ flag (codes "b") (branch_is [])
    ∷ flag (codes "clean") (clean_is false)
    ∷ flag (codes "c") (clean_is false)
    ∷ flag (codes "output") (output_is [])
    ∷ flag (codes "o") (output_is [])
    ∷ []

abbrev assign : Assignment → Flags → Flags
assign (help_is value) flags = record flags { help = value }
assign (clean_is value) flags = record flags { clean = value }
assign (action_url_is value) flags = record flags { action_url = value }
assign (branch_is value) flags = record flags { branch = value }
assign (output_is value) flags = record flags { output = value }

abbrev pub assign_each : List Assignment → Flags → Flags
assign_each [] flags = flags
assign_each (assignment ∷ assignments) flags = assign_each assignments (assign assignment flags)

-- The variables before `init`.
abbrev zero_flags : Flags
zero_flags = record { help = false; action_url = []; branch = []; clean = false; output = [] }

-- `flag.BoolVar` and `flag.StringVar` set the variable to the default.
abbrev pub register : List Registration → Flags → Flags
register [] flags = flags
register (registration ∷ registrations) flags =
    register registrations (assign registration.default_value flags)

module _ {W C : Type 0} (parse : List Registration → (args : List Text) → Option (List Assignment))
    (tool : Tool W C) where
  abbrev with_assignments :
      Option (List Assignment) → W → (files output_files : List (File C)) → Finished W C
  with_assignments none w files output_files = finished tool w files output_files [] exit_2
  with_assignments (some assignments) w files output_files =
      main tool (assign_each assignments (register registered zero_flags)) w files output_files

  -- `init` and `main`, of the command line.
  unfoldable pub start :
      (args : List Text) → W → (files output_files : List (File C)) → Finished W C
  unfolding main
  start args w files output_files = with_assignments (parse registered args) w files output_files
