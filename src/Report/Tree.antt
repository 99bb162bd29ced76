-- ===== src/Report/Tree.antt =====
-- internal/report/tree.go. No node of a tree is shared, so a pointer to a tree is the tree itself, and
-- a method that changes its receiver returns it; what the source does to the leaf that `Insert` returns
-- is done to the node at the end of the path. Texts are lists of bytes. `path.Join`, `strconv.Itoa` and
-- Ginkgo's `WithLeafNodeType(NodeTypeIt)` are parameters. The counts are unbounded, where the source
-- has `int`.
pub mod Insert
pub mod Sums
pub mod Lookup
pub mod Reports
pub mod Print
pub mod Sort
use medik8s_system_tests.Base.{
  ℕ, zero, suc, ◌+◌, ◌≡◌, Bool, true, false, List, [], ◌∷◌, ◌++◌, Option, none, some, length,
  replicate, if◌then◌else◌, ◌==◌,
}
use medik8s_system_tests.Go.Strings.{Text, codes, text_eq, has_prefix, split}

-- What the source reads of Ginkgo's type.
pub record SpecReport : Type 0 where
  pub leaf_node_text : Text
  pub leaf_node_type : ℕ

-- The fields of `SuiteTree` but for the children.
pub record Suite : Type 0 where
  pub path : Text
  pub name : Text
  pub description : Text
  pub specs : ℕ
  pub spec_report : Option SpecReport

mutual
  pub data SuiteTree : Type 0 where
    suite : Suite → Children → SuiteTree

  pub data Children : Type 0 where
    end : Children
    child : SuiteTree → Children → Children

abbrev pub fields : SuiteTree → Suite
fields (suite s children) = s

abbrev pub children_of : SuiteTree → Children
children_of (suite s children) = children

abbrev pub name_of : SuiteTree → Text
name_of tree = (fields tree).name

abbrev pub specs_of : SuiteTree → ℕ
specs_of tree = (fields tree).specs

abbrev pub slash : ℕ
slash = 47

unfoldable pub find_child : Text → Children → Option SuiteTree
find_child name end = none
find_child name (child tree children) =
    let later = find_child name children in if name_of tree == name then some tree else later

-- The child with the name, or the fresh one behind the others, and what is done to it.
unfoldable pub update_child :
    (SuiteTree → SuiteTree) → (fresh : SuiteTree) → Text → Children → Children
update_child change fresh name end = child (change fresh) end
update_child change fresh name (child tree children) =
    let later = update_child change fresh name children in
    if name_of tree == name then child (change tree) children else child tree later

-- `currNode.Specs = specs` and what follows it.
unfoldable pub set_leaf : (description : Text) → (specs : ℕ) → SuiteTree → SuiteTree
set_leaf description specs (suite s children) =
    suite (record s { specs = specs; description = description }) end

unfoldable pub add_specs : ℕ → Suite → Suite
add_specs specs s = record s { specs = s.specs + specs }

abbrev pub append_child : Children → Children → Children
append_child end more = more
append_child (child tree children) more = child tree (append_child children more)

module _ (join : Text → Text → Text) where
  abbrev pub fresh_child : Suite → Text → SuiteTree
  fresh_child s elem =
      suite
        (record {
          path = join s.path elem;
          name = elem;
          description = [];
          specs = 0;
          spec_report = none;
        })
        end

  -- The loop over the elements of the path; `finish` is what is done to the last node.
  unfoldable pub descend : (finish : SuiteTree → SuiteTree) → ℕ → List Text → SuiteTree → SuiteTree
  unfolding update_child add_specs
  descend finish specs [] tree = finish tree
  descend finish specs (elem ∷ elems) (suite s children) =
      suite (add_specs specs s)
        (update_child (descend finish specs elems) (fresh_child s elem) elem children)

  -- `Insert`, and what is done to the leaf that it returns; `none` where it returns nil.
  unfoldable pub insert_with :
      (SuiteTree → SuiteTree) → Text → Text → ℕ → SuiteTree → Option SuiteTree
  unfolding descend set_leaf
  insert_with after suite_path description specs tree =
      if has_prefix suite_path (fields tree).path
      then some (
          descend (λ leaf. after (set_leaf description specs leaf)) specs (split slash suite_path)
            tree)
      else none

  unfoldable pub insert : Text → Text → ℕ → SuiteTree → Option SuiteTree
  unfolding insert_with
  insert = insert_with (λ leaf. leaf)

  unfoldable pub spec_child : Text → SpecReport → SuiteTree
  spec_child path spec =
      let text = codes "It " ++ spec.leaf_node_text in
      suite
        (record {
          path = join path text;
          name = text;
          description = [];
          specs = 1;
          spec_report = some spec;
        })
        end

  unfoldable pub spec_children : Text → List SpecReport → Children
  unfolding spec_child
  spec_children path [] = end
  spec_children path (spec ∷ specs) = child (spec_child path spec) (spec_children path specs)

  module _ (its : List SpecReport → List SpecReport) where
    unfoldable pub insert_specs : List SpecReport → SuiteTree → SuiteTree
    unfolding spec_children
    insert_specs specs (suite s children) =
        suite s (append_child children (spec_children s.path (its specs)))

    pub record Report : Type 0 where
      pub suite_path : Text
      pub suite_description : Text
      pub total_specs : ℕ
      pub spec_reports : List SpecReport

    abbrev pub root : SuiteTree
    root =
        suite
          (record { path = codes "/"; name = []; description = []; specs = 0; spec_report = none })
          end

    -- One round of the loop; `none` is the nil dereference of `InsertSpecs` on the nil that `Insert`
    -- returned.
    unfoldable pub add_report : Report → SuiteTree → Option SuiteTree
    unfolding insert_with insert_specs
    add_report report tree =
        insert_with (insert_specs report.spec_reports) report.suite_path report.suite_description
          report.total_specs tree

    unfoldable pub add_reports : List Report → SuiteTree → Option SuiteTree
    unfolding add_report
    add_reports [] tree = some tree
    add_reports (report ∷ reports) tree = elim (add_report report tree) [
      | none ↦ none
      | some grown ↦ add_reports reports grown
    ]

    unfoldable pub new_from_reports : List Report → Option SuiteTree
    unfolding add_reports
    new_from_reports reports = add_reports reports root
