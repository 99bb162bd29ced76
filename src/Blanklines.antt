-- ===== src/Blanklines.antt =====
-- internal/tools/blanklines/main.go: the tool that finds and removes blank lines between simple
-- statements. A position is an offset in the file. A node of the syntax tree has the children that
-- `ast.Inspect` visits; the kinds that the source does not tell apart are `other`. What an identifier
-- stands for, `sort.Slice`, the flags, the packages and the outcome of the calls on the disk are
-- parameters.
pub mod Lines
pub mod Gap
pub mod Places
pub mod Nested
pub mod Sorted
pub mod Kept
pub mod Run
mod Tests
use medik8s_system_tests.Base.{
  ℕ, zero, suc, ◌+◌, ◌-◌, ◌≡◌, Bool, true, false, not, ◌&&◌, ◌||◌, List, [], ◌∷◌, ◌++◌, Option,
  none, some, take, drop, slice, ltb, if◌then◌else◌, ◌==◌, nat_eq,
}
use medik8s_system_tests.Go.Strings.{Text, codes, text_eq, split, trim_by, is_space}

pub record Span : Type 0 where
  pub start : ℕ
  pub finish : ℕ

mutual
  pub data Node : Type 0 where
    block_stmt : Span → (list : Nodes) → Node
    case_clause comm_clause : Span → (guard body : Nodes) → Node
    func_lit assign_stmt inc_dec_stmt other : Span → Nodes → Node
    expr_stmt paren_expr : Span → Node → Node
    call_expr : Span → (function : Node) → (arguments : Nodes) → Node
    ident : Span → Node
    selector_expr : Span → Node → (selected : Span) → Node

  pub data Nodes : Type 0 where
    nil : Nodes
    cons : Node → Nodes → Nodes

-- What the source reads of a `types.Object`.
pub record Object : Type 0 where
  pub package_path : Option Text
  pub name : Text

abbrev pub span_of : Node → Span
span_of (block_stmt span list) = span
span_of (case_clause span guard body) = span
span_of (comm_clause span guard body) = span
span_of (func_lit span nodes) = span
span_of (assign_stmt span nodes) = span
span_of (inc_dec_stmt span nodes) = span
span_of (other span nodes) = span
span_of (expr_stmt span node) = span
span_of (paren_expr span node) = span
span_of (call_expr span function arguments) = span
span_of (ident span) = span
span_of (selector_expr span node selected) = span

-- Whether a function literal is met under a node.
unfoldable mutual
  pub contains_callback : Node → Bool
  contains_callback (func_lit span nodes) = true
  contains_callback (block_stmt span list) = contain_callback list
  contains_callback (case_clause span guard body) = contain_callback guard || contain_callback body
  contains_callback (comm_clause span guard body) = contain_callback guard || contain_callback body
  contains_callback (assign_stmt span nodes) = contain_callback nodes
  contains_callback (inc_dec_stmt span nodes) = contain_callback nodes
  contains_callback (other span nodes) = contain_callback nodes
  contains_callback (expr_stmt span node) = contains_callback node
  contains_callback (paren_expr span node) = contains_callback node
  contains_callback (call_expr span function arguments) =
      contains_callback function || contain_callback arguments
  contains_callback (ident span) = false
  contains_callback (selector_expr span node selected) = contains_callback node

  pub contain_callback : Nodes → Bool
  contain_callback nil = false
  contain_callback (cons node nodes) = contains_callback node || contain_callback nodes

abbrev pub is_by : Option Object → Bool
is_by none = false
is_by (some object) = elim object.package_path [
  | none ↦ false
  | some path ↦ path == codes "github.com/onsi/ginkgo/v2" && object.name == codes "By"
]

-- `uses` is `info.Uses`, at the place of an identifier.
module _ (uses : Span → Option Object) where
  -- `ginkgoStep`, of the function that is called.
  unfoldable pub ginkgo_step : (function : Node) → Bool
  ginkgo_step (paren_expr span node) = ginkgo_step node
  ginkgo_step (ident span) = is_by (uses span)
  ginkgo_step (selector_expr span node selected) = is_by (uses selected)
  ginkgo_step _ = false

  abbrev pub is_plain_call : Node → Bool
  is_plain_call (call_expr span function arguments) = not (ginkgo_step function)
  is_plain_call _ = false

  abbrev pub is_simple_kind : Node → Bool
  is_simple_kind (assign_stmt span nodes) = true
  is_simple_kind (inc_dec_stmt span nodes) = true
  is_simple_kind (expr_stmt span node) = is_plain_call node
  is_simple_kind _ = false

  unfoldable pub simple_statement : Node → Bool
  unfolding contains_callback ginkgo_step
  simple_statement statement = not (contains_callback statement) && is_simple_kind statement

unfoldable pub has_comment_between : (comments : List Span) → (start finish : ℕ) → Bool
has_comment_between [] start finish = false
has_comment_between (group ∷ comments) start finish =
    (ltb group.start finish && ltb start group.finish) || has_comment_between comments start finish

abbrev pub newline : ℕ
newline = 10

unfoldable pub newlines : Text → ℕ
newlines [] = 0
newlines (c ∷ text) = let later = newlines text in if c == newline then suc later else later

-- Where the line behind so many others starts.
unfoldable pub line_start : ℕ → Text → ℕ
line_start zero text = 0
line_start (suc n) [] = 0
line_start (suc n) (c ∷ text) =
    let next = line_start n text in
    let here = line_start (suc n) text in suc (if c == newline then next else here)

-- `token.Position`. Lines count from 1.
pub record Position : Type 0 where
  pub line : ℕ
  pub offset : ℕ

-- `fset.PositionFor`
unfoldable pub position_for : (source : Text) → ℕ → Position
unfolding newlines
position_for source offset = record { line = 1 + newlines (take offset source); offset = offset }

-- `LineStart`, and the position there.
unfoldable pub line_position : (source : Text) → (line : ℕ) → Position
unfolding line_start
line_position source line = record { line = line; offset = line_start (line - 1) source }

-- The blank ones among the lines of a gap, without its last; `line` is the number of the first.
unfoldable pub blank_lines : (line : ℕ) → List Text → List ℕ
unfolding trim_by is_space
blank_lines line [] = []
blank_lines line (text ∷ []) = []
blank_lines line (text ∷ next ∷ lines) =
    let later = blank_lines (suc line) (next ∷ lines) in
    if trim_by is_space text == [] then line ∷ later else later

-- The loop over the lines of a gap, from the second.
unfoldable pub gap_lines : (line : ℕ) → List Text → List ℕ
unfolding blank_lines
gap_lines line [] = []
gap_lines line (first ∷ lines) = blank_lines (suc line) lines

abbrev pub line_positions : (source : Text) → List ℕ → List Position
line_positions source [] = []
line_positions source (line ∷ lines) = line_position source line ∷ line_positions source lines

module _ (uses : Span → Option Object) (comments : List Span) (source : Text) where
  -- The lines of the gap between two statements.
  unfoldable pub check_pair : (first second : Node) → List Position
  unfolding simple_statement has_comment_between position_for line_position gap_lines split
  check_pair first second =
      let start = position_for source (span_of first).finish in
      let finish = position_for source (span_of second).start in
      let found =
        line_positions source
          (gap_lines start.line (split newline (slice start.offset finish.offset source))) in
      if not (simple_statement uses first)
        || (not (simple_statement uses second)
            || has_comment_between comments (span_of first).finish (span_of second).start)
      then []
      else found

  -- The loop over the statements of a block.
  unfoldable pub check_statements : Nodes → List Position
  unfolding check_pair
  check_statements nil = []
  check_statements (cons first nil) = []
  check_statements (cons first (cons second statements)) =
      check_pair first second ++ check_statements (cons second statements)

  unfoldable mutual
    unfolding check_statements

    pub check_node : Node → List Position
    check_node (block_stmt span list) = check_statements list ++ check_nodes list
    check_node (case_clause span guard body) =
        check_statements body ++ (check_nodes guard ++ check_nodes body)
    check_node (comm_clause span guard body) =
        check_statements body ++ (check_nodes guard ++ check_nodes body)
    check_node (func_lit span nodes) = check_nodes nodes
    check_node (assign_stmt span nodes) = check_nodes nodes
    check_node (inc_dec_stmt span nodes) = check_nodes nodes
    check_node (other span nodes) = check_nodes nodes
    check_node (expr_stmt span node) = check_node node
    check_node (paren_expr span node) = check_node node
    check_node (call_expr span function arguments) = check_node function ++ check_nodes arguments
    check_node (ident span) = []
    check_node (selector_expr span node selected) = check_node node

    pub check_nodes : Nodes → List Position
    check_nodes nil = []
    check_nodes (cons node nodes) = check_node node ++ check_nodes nodes

-- What stands behind the end of the line, or the text where it has none.
unfoldable pub after_newline : Text → Option Text
after_newline [] = none
after_newline (c ∷ text) =
    let later = after_newline text in if c == newline then some text else later

abbrev pub or_same : Text → Option Text → Text
or_same text none = text
or_same text (some rest) = rest

unfoldable pub remove_line : (offset : ℕ) → Text → Text
unfolding after_newline
remove_line offset fixed =
    take offset fixed ++ or_same (drop offset fixed) (after_newline (drop offset fixed))

-- The loop of `removeBlankLines` over the sorted positions.
unfoldable pub remove_lines : List Position → Text → Text
unfolding remove_line
remove_lines [] fixed = fixed
remove_lines (position ∷ findings) fixed = remove_lines findings (remove_line position.offset fixed)

module _ (sort_slice : List Position → List Position) where
  unfoldable pub remove_blank_lines : (source : Text) → List Position → Text
  unfolding remove_lines
  remove_blank_lines source findings = remove_lines (sort_slice findings) source
