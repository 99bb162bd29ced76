-- ===== src/Blanklines/Tests.antt =====
-- Runs of the blank-line tool on a function of two assignments.
use medik8s_system_tests.Base.{
  subst, if◌then◌else◌, ◌==◌, List, ℕ, ◌≡◌, ◌⊎◌, refl, true, false, [], ◌∷◌, ◌++◌, Option, none,
  arith, some, All, take, drop, slice,
}
use medik8s_system_tests.Go.Strings.{Text, codes, text_eq}
use medik8s_system_tests.Blanklines.{
  Span, Node, nil, cons, block_stmt, assign_stmt, Object, check_node, remove_blank_lines,
}
use medik8s_system_tests.Blanklines.Lines.{words}
use medik8s_system_tests.Blanklines.Kept.{IsBlankAt, check_node-IsBlankAt, words-remove_blank_lines}
use medik8s_system_tests.Blanklines.Nested.{IsNested}
use medik8s_system_tests.Blanklines.Nested.Once.{check_node-Distinct}
use medik8s_system_tests.Blanklines.Places.{Distinct}
use medik8s_system_tests.Blanklines.Sorted.{insertion_sort, insertion_sort-SortsDescending}
use medik8s_system_tests.Blanklines.Run.{Host, SourceFile, State, files_of, start, run}
use medik8s_system_tests.Blanklines.Run.Fixed.{HasNested, words_of, words-run}
use medik8s_system_tests.Blanklines.Run.Checked.{HasClean, run-IsClean}

-- `{`, `a=1`, an empty line, `b=2` and `}`.
abbrev source : Text
source =
    codes "{"
    ++ (10 ∷ (codes "a=1" ++ (10 ∷ 10 ∷ (codes "b=2" ++ (10 ∷ (codes "}" ++ (10 ∷ [])))))))

abbrev span : ℕ → ℕ → Span
span start finish = record { start = start; finish = finish }

abbrev uses : Span → Option Object
uses place = none

abbrev block : Node
block =
    block_stmt (span 0 12)
      (cons (assign_stmt (span 2 5) nil) (cons (assign_stmt (span 7 10) nil) nil))

check_block : check_node uses [] source block ≡ record { line = 3; offset = 6 } ∷ []
unfolding check_node slice
check_block = refl

check_node-IsBlankAt_example : All (IsBlankAt source) (check_node uses [] source block)
check_node-IsBlankAt_example = check_node-IsBlankAt uses [] source block

block-IsNested : IsNested block
unfolding IsNested
block-IsNested =
    (omega arith, omega arith, omega arith, (omega arith, omega arith, omega arith, omega arith))

check_node-Distinct_example : Distinct (check_node uses [] source block)
check_node-Distinct_example = check_node-Distinct uses [] source block block-IsNested

words-remove_blank_lines_example :
    words (remove_blank_lines insertion_sort source (check_node uses [] source block))
    ≡ words source
words-remove_blank_lines_example =
    words-remove_blank_lines uses [] source insertion_sort block insertion_sort-SortsDescending
      block-IsNested

fixed_block :
    remove_blank_lines insertion_sort source (record { line = 3; offset = 6 } ∷ [])
    ≡ codes "{" ++ (10 ∷ (codes "a=1" ++ (10 ∷ (codes "b=2" ++ (10 ∷ (codes "}" ++ (10 ∷ [])))))))
unfolding remove_blank_lines insertion_sort take drop
fixed_block = refl

abbrev file : SourceFile
file = record {
  filename = codes "a.go";
  is_generated = false;
  syntax = block_stmt (span 0 12) (cons (assign_stmt (span 2 5) nil) nil);
  comments = [];
  uses = uses;
}

abbrev host : Host
host = record {
  parse_flags = λ args. some (false, args);
  load_packages = λ patterns. some ((file ∷ file ∷ []) ∷ []);
  print_errors = λ loaded. 0;
  sort_slice = insertion_sort;
  stats = λ name. true;
  writes = λ name. true;
  torn = λ text. text;
}

abbrev disk : Text → Option Text
disk name = some source

abbrev after : State
after = record { seen = codes "a.go" ∷ []; found = false; disk = disk; messages = [] }

ran : run host [] disk ≡ (after, none)
unfolding run check_node
ran = refl

run-IsClean_example :
    (after.disk ≡ disk)
    × All
        (λ f.
          (f.is_generated ≡ true) ⊎ HasClean disk (files_of ((file ∷ file ∷ []) ∷ [])) f.filename)
        (files_of ((file ∷ file ∷ []) ∷ []))
run-IsClean_example = run-IsClean host [] [] ((file ∷ file ∷ []) ∷ []) disk after refl refl ran

-- The same file with its blank line, and a run that takes it out.
abbrev blank_file : SourceFile
blank_file = record {
  filename = codes "a.go";
  is_generated = false;
  syntax = block;
  comments = [];
  uses = uses;
}

abbrev fixing_host : Host
fixing_host = record host {
  parse_flags = λ args. some (true, args);
  load_packages = λ patterns. some ((blank_file ∷ []) ∷ []);
}

abbrev one_file : Text → Option Text
one_file name = if name == codes "a.go" then some source else none

abbrev or_empty : Option Text → Text
or_empty none = []
or_empty (some text) = text

abbrev files_or : Option (List (List SourceFile)) → List SourceFile
files_or none = []
files_or (some packages) = files_of packages

words-run_example :
    words_of ((run fixing_host [] one_file).0.disk (codes "a.go"))
    ≡ words_of (one_file (codes "a.go"))
words-run_example =
    words-run fixing_host one_file insertion_sort-SortsDescending (λ name. refl) [] [] refl
      (λ packages loads. subst (λ l. All HasNested (files_or l)) loads (block-IsNested, tt))
      (codes "a.go")
