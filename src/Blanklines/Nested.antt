-- ===== src/Blanklines/Nested.antt =====
-- The order of the nodes of a syntax tree in the source, as the parser of Go gives it. Of nodes that hold
-- no list of statements nothing is asked: these may overlap, as a function's type and its receiver do.
pub mod Once
use medik8s_system_tests.Base.{
  ℕ, zero, suc, ◌+◌, ◌-◌, ◌≡◌, ◌≢◌, ◌≤◌, ◌<◌, ◌⊎◌, refl, sym, ap, ap₂, ◌∙◌, subst, Bool, true,
  false, not, ◌||◌, List, [], ◌∷◌, ◌++◌, Option, All, All-append, arith, Bool-cases, inl, inr,
  slice, take,
}
use medik8s_system_tests.Go.Strings.{Text, split}
use medik8s_system_tests.Blanklines.{
  Span, Node, Nodes, block_stmt, case_clause, comm_clause, func_lit, assign_stmt, inc_dec_stmt,
  other, expr_stmt, paren_expr, call_expr, ident, selector_expr, nil, cons, Object, span_of,
  Position, newline, newlines, line_start, position_for, line_position, line_positions, gap_lines,
  simple_statement, has_comment_between, check_pair, check_statements, check_node, check_nodes,
}
use medik8s_system_tests.Blanklines.Lines.{is_blank_line, is_blank_line-line_start}
use medik8s_system_tests.Blanklines.Gap.Source.{Between, gap_lines-Between}
use medik8s_system_tests.Blanklines.Gap.Order.{Increasing, gap_lines-Increasing}
use medik8s_system_tests.Blanklines.Places.{
  Inside, Apart, Distinct, Clear, widen, Inside-Apart, Inside-Apart_back, Apart-append_left,
  Apart-append_right, Distinct-append, Clear-append, Parts, Parts-Clear,
}

-- Whether a list of statements is met at or under a node.
unfoldable mutual
  pub has_statements : Node → Bool
  has_statements (block_stmt span list) = true
  has_statements (case_clause span guard body) = true
  has_statements (comm_clause span guard body) = true
  has_statements (func_lit span nodes) = have_statements nodes
  has_statements (assign_stmt span nodes) = have_statements nodes
  has_statements (inc_dec_stmt span nodes) = have_statements nodes
  has_statements (other span nodes) = have_statements nodes
  has_statements (expr_stmt span node) = has_statements node
  has_statements (paren_expr span node) = has_statements node
  has_statements (call_expr span function arguments) =
      has_statements function || have_statements arguments
  has_statements (ident span) = false
  has_statements (selector_expr span node selected) = has_statements node

  pub have_statements : Nodes → Bool
  have_statements nil = false
  have_statements (cons node nodes) = has_statements node || have_statements nodes

-- A node between two places, or without statements.
abbrev pub Fits : (lo hi : ℕ) → Node → (nested : Type 0) → Type 0
Fits lo hi node nested =
    (has_statements node ≡ false)
    ⊎ ((lo ≤ (span_of node).start)
        × ((span_of node).start ≤ (span_of node).finish)
        × ((span_of node).finish ≤ hi)
        × nested)

-- The children of each node lie inside it, one behind the other.
unfoldable mutual
  pub IsNested : Node → Type 0
  IsNested (block_stmt span list) = Ordered span.start span.finish list
  IsNested (case_clause span guard body) =
      (colon : ℕ) × Within span.start colon guard × Ordered colon span.finish body
  IsNested (comm_clause span guard body) =
      (colon : ℕ) × Within span.start colon guard × Ordered colon span.finish body
  IsNested (func_lit span nodes) = Within span.start span.finish nodes
  IsNested (assign_stmt span nodes) = Within span.start span.finish nodes
  IsNested (inc_dec_stmt span nodes) = Within span.start span.finish nodes
  IsNested (other span nodes) = Within span.start span.finish nodes
  IsNested (expr_stmt span node) = Fits span.start span.finish node (IsNested node)
  IsNested (paren_expr span node) = Fits span.start span.finish node (IsNested node)
  IsNested (call_expr span function arguments) =
      (paren : ℕ) × (span.start ≤ paren)
      × Fits span.start paren function (IsNested function)
      × Within paren span.finish arguments
  IsNested (ident span) = Unit
  IsNested (selector_expr span node selected) = Fits span.start span.finish node (IsNested node)

  -- The nodes that are visited, from one place to another.
  pub Within : (lo hi : ℕ) → Nodes → Type 0
  Within lo hi nil = lo ≤ hi
  Within lo hi (cons node nodes) =
      (end : ℕ) × (lo ≤ end) × Fits lo end node (IsNested node) × Within end hi nodes

  -- The statements of a list.
  pub Ordered : (lo hi : ℕ) → Nodes → Type 0
  Ordered lo hi nil = lo ≤ hi
  Ordered lo hi (cons node nodes) =
      (lo ≤ (span_of node).start)
      × ((span_of node).start ≤ (span_of node).finish)
      × IsNested node
      × Ordered (span_of node).finish hi nodes

pub Within-le : (lo hi : ℕ) (nodes : Nodes) → Within lo hi nodes → lo ≤ hi
unfolding Within
Within-le lo hi nil within = within
Within-le lo hi (cons node nodes) (end, below, fits, within) =
    omega (arith, below, Within-le end hi nodes within)

pub Ordered-le : (lo hi : ℕ) (nodes : Nodes) → Ordered lo hi nodes → lo ≤ hi
unfolding Ordered
Ordered-le lo hi nil ordered = ordered
Ordered-le lo hi (cons node nodes) (below, has, nested, ordered) =
    omega (arith, below, has, Ordered-le (span_of node).finish hi nodes ordered)

mutual
  unfolding has_statements check_node

  pub has_statements-check_node :
      (uses : Span → Option Object) (comments : List Span) (source : Text) (node : Node)
      → has_statements node ≡ false
      → check_node uses comments source node ≡ []
  has_statements-check_node uses comments source (block_stmt span list) h =
      absurd (ground (arith, h))
  has_statements-check_node uses comments source (case_clause span guard body) h =
      absurd (ground (arith, h))
  has_statements-check_node uses comments source (comm_clause span guard body) h =
      absurd (ground (arith, h))
  has_statements-check_node uses comments source (func_lit span nodes) h =
      have_statements-check_nodes uses comments source nodes h
  has_statements-check_node uses comments source (assign_stmt span nodes) h =
      have_statements-check_nodes uses comments source nodes h
  has_statements-check_node uses comments source (inc_dec_stmt span nodes) h =
      have_statements-check_nodes uses comments source nodes h
  has_statements-check_node uses comments source (other span nodes) h =
      have_statements-check_nodes uses comments source nodes h
  has_statements-check_node uses comments source (expr_stmt span node) h =
      has_statements-check_node uses comments source node h
  has_statements-check_node uses comments source (paren_expr span node) h =
      has_statements-check_node uses comments source node h
  has_statements-check_node uses comments source (call_expr span function arguments) h =
      ap₂ (λ xs ys. xs ++ ys)
        (has_statements-check_node uses comments source function (ground (arith, h)))
        (have_statements-check_nodes uses comments source arguments (ground (arith, h)))
  has_statements-check_node uses comments source (ident span) h = refl
  has_statements-check_node uses comments source (selector_expr span node selected) h =
      has_statements-check_node uses comments source node h

  have_statements-check_nodes :
      (uses : Span → Option Object) (comments : List Span) (source : Text) (nodes : Nodes)
      → have_statements nodes ≡ false
      → check_nodes uses comments source nodes ≡ []
  have_statements-check_nodes uses comments source nil h = refl
  have_statements-check_nodes uses comments source (cons node nodes) h =
      ap₂ (λ xs ys. xs ++ ys)
        (has_statements-check_node uses comments source node (ground (arith, h)))
        (have_statements-check_nodes uses comments source nodes (ground (arith, h)))
