-- ===== src/Report/Tests.antt =====
-- Runs of the report tool on concrete suites.
use medik8s_system_tests.Base.{
  ℕ, ◌≡◌, refl, ◌↔◌, false, List, [], ◌∷◌, ◌++◌, none, some, arith, Any,
}
use medik8s_system_tests.Go.Strings.{Text, codes, has_prefix, split}
use medik8s_system_tests.Report.Tree.{
  SuiteTree, suite, end, child, fields, children_of, specs_of, slash, find_child, update_child,
  set_leaf, descend, insert, Report, root, new_from_reports,
}
use medik8s_system_tests.Report.Tree.Sums.{Balanced, HasRoom, insert-Balanced}
use medik8s_system_tests.Report.Tree.Lookup.{lookup, lookup-insert}
use medik8s_system_tests.Report.Tree.Reports.{new_from_reports-total_specs, new_from_reports-none}
use medik8s_system_tests.Report.Tree.Print.{lines}

abbrev join : Text → Text → Text
join directory name = directory ++ (slash ∷ name)

abbrev start : SuiteTree
start = root join (λ specs. specs)

abbrev leaf_suite : (path name description : Text) (specs : ℕ) → SuiteTree
leaf_suite path name description specs =
    suite
      (record {
        path = path;
        name = name;
        description = description;
        specs = specs;
        spec_report = none;
      })
      end

-- The suite `/a` with four specs.
abbrev grown : SuiteTree
grown =
    suite (record { path = codes "/"; name = []; description = []; specs = 4; spec_report = none })
      (child
        (suite
          (record { path = codes "//"; name = []; description = []; specs = 4; spec_report = none })
          (child (leaf_suite (codes "///a") (codes "a") (codes "A") 4) end))
        end)

inserted : insert join (codes "/a") (codes "A") 4 start ≡ some grown
unfolding insert has_prefix split descend set_leaf update_child
inserted = refl

start-HasRoom : HasRoom (split slash (codes "/a")) start
unfolding split find_child
start-HasRoom = (refl, λ tree at. absurd (ground arith))

insert-Balanced_example : Balanced grown × (specs_of grown ≡ 4)
insert-Balanced_example =
    insert-Balanced join (codes "/a") (codes "A") 4 start grown inserted (tt, tt) start-HasRoom

lookup-insert_example :
    (leaf : SuiteTree) × (lookup (split slash (codes "/a")) grown ≡ some leaf)
    × ((fields leaf).description ≡ codes "A")
    × ((fields leaf).specs ≡ 4)
    × (children_of leaf ≡ end)
lookup-insert_example = lookup-insert join (codes "/a") (codes "A") 4 start grown inserted

abbrev report : Text → ℕ → Report join (λ specs. specs)
report path n = record {
  suite_path = path;
  suite_description = [];
  total_specs = n;
  spec_reports = record { leaf_node_text = codes "works"; leaf_node_type = 1 } ∷ [];
}

abbrev reports : List (Report join (λ specs. specs))
reports = report (codes "/a") 1 ∷ report (codes "/b") 2 ∷ []

new_from_reports-total_specs_example :
    (tree : SuiteTree) × (new_from_reports join (λ specs. specs) reports ≡ some tree)
    × (specs_of tree ≡ 3)
new_from_reports-total_specs_example =
    new_from_reports-total_specs join (λ specs. specs) reports
      (unfold has_prefix in (refl, (refl, tt)))

new_from_reports-none_example :
    (new_from_reports join (λ specs. specs) (report (codes "a") 1 ∷ []) ≡ none)
    ↔ Any (λ r. has_prefix r.suite_path (codes "/") ≡ false) (report (codes "a") 1 ∷ [])
new_from_reports-none_example =
    new_from_reports-none join (λ specs. specs) (report (codes "a") 1 ∷ [])

abbrev itoa : ℕ → Text
itoa n = codes "4"

itoa-plain : (n : ℕ) → lines (itoa n) ≡ 0
unfolding lines
itoa-plain n = refl
