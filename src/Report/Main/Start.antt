-- ===== src/Report/Main/Start.antt =====
-- `main`.
use medik8s_system_tests.Base.{Bool, true, false, not, List, [], if◌then◌else◌, ◌==◌}
use medik8s_system_tests.Go.Strings.{Text, text_eq}
use medik8s_system_tests.Report.Cache.Disk.{File}
use medik8s_system_tests.Report.Cache.Store.{clean_cache}
use medik8s_system_tests.Report.Main.{
  Outcome, returns, fails, panics, Trees, Tool, Exit, exit_0, exit_1, exit_2, Flags, Finished,
}
use medik8s_system_tests.Report.Main.Collect.{get_trees}
use medik8s_system_tests.Report.Main.Output.{print_tree_map, template_tree_map}

module _ {W C : Type 0} (tool : Tool W C) where
  abbrev Files : Type 0
  Files = List (File C)

  abbrev pub finished : W → Files → Files → Text → Exit → Finished W C
  finished w files output_files printed exit = record {
    machine = w;
    files = files;
    output_files = output_files;
    printed = printed;
    exit = exit;
  }

  abbrev pub exit_of : Outcome Unit → Exit
  exit_of (returns done) = exit_0
  exit_of fails = exit_1
  exit_of panics = exit_2

  abbrev pub main_output : Flags → W → Files → Files → Trees → Text × Bool → Finished W C
  main_output flags w files output_files trees (printed, false) =
      finished w files output_files printed exit_2
  main_output flags w files output_files trees (printed, true) =
      let (written, outcome) =
        template_tree_map tool flags.action_url flags.output trees output_files in
      if not (flags.output == [])
      then finished w files written printed (exit_of outcome)
      else finished w files output_files printed exit_0

  abbrev pub main_trees : Flags → Files → W × Outcome Trees × Files → Finished W C
  main_trees flags output_files (w, fails, files) = finished w files output_files [] exit_1
  main_trees flags output_files (w, panics, files) = finished w files output_files [] exit_2
  main_trees flags output_files (w, returns trees, files) =
      main_output flags w files output_files trees (print_tree_map tool trees)

  abbrev pub main_clean : W → Files → Files × Bool → Finished W C
  main_clean w output_files (files, true) = finished w files output_files [] exit_0
  main_clean w output_files (files, false) = finished w files output_files [] exit_1

  -- `main`, behind the flags. What `flag.Usage` prints is left out.
  unfoldable pub main : Flags → W → (files output_files : Files) → Finished W C
  unfolding get_trees print_tree_map template_tree_map
  main flags w files output_files =
      let worked = main_trees flags output_files (get_trees tool flags.branch w files) in
      if flags.help
      then finished w files output_files [] exit_0
      else if flags.clean
      then main_clean w output_files (clean_cache tool.cache files)
      else worked
