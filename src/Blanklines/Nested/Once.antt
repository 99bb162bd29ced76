-- ===== src/Blanklines/Nested/Once.antt =====
-- No position is found twice in a file whose nodes are in order.
use medik8s_system_tests.Base.{
  ℕ, zero, suc, ◌+◌, ◌-◌, ◌≢◌, ◌<◌, sym, subst, not, ◌||◌, List, [], ◌∷◌, Option, All, arith,
  Bool-cases, inl, inr, slice, take,
}
use medik8s_system_tests.Go.Strings.{Text, split}
use medik8s_system_tests.Blanklines.{
  Span, Node, Nodes, block_stmt, case_clause, comm_clause, func_lit, assign_stmt, inc_dec_stmt,
  other, expr_stmt, paren_expr, call_expr, ident, selector_expr, nil, cons, Object, span_of,
  newline, newlines, line_start, position_for, line_position, line_positions, gap_lines,
  simple_statement, has_comment_between, check_pair, check_statements, check_node, check_nodes,
}
use medik8s_system_tests.Blanklines.Lines.{is_blank_line-line_start}
use medik8s_system_tests.Blanklines.Gap.Source.{Between, gap_lines-Between}
use medik8s_system_tests.Blanklines.Gap.Order.{Increasing, gap_lines-Increasing}
use medik8s_system_tests.Blanklines.Places.{
  Distinct, Clear, widen, Clear-append, Parts, Parts-Clear, Parts-cons, clause-Clear,
}
use medik8s_system_tests.Blanklines.Nested.{
  Fits, IsNested, Within, Ordered, Within-le, Ordered-le, has_statements-check_node,
}

line_start-counted :
    (start line : ℕ) (source : Text) → start < line_start (line - 1) source → 0 < line
unfolding line_start
line_start-counted start zero source h = absurd (omega (arith, h))
line_start-counted start (suc line) source h = omega arith

line_positions-after :
    (source : Text) (start finish line : ℕ) (lines : List ℕ)
    → Between source start finish line
    → All (λ m. line < m) lines
    → All (Between source start finish) lines
    → All (λ q. line_start (line - 1) source ≢ q.offset) (line_positions source lines)
unfolding line_position
line_positions-after source start finish line [] here above between = tt
line_positions-after source start finish line (m ∷ lines) (blank, after, before) (less, above)
      ((at, behind, to), between) =
    let counted : 0 < line = line_start-counted start line source after in
    let further : line_start (line - 1) source < line_start (m - 1) source =
      is_blank_line-line_start (line - 1) (m - 1) source (omega (arith, counted, less)) blank in
    (
      (λ same. absurd (omega (arith, further, same))),
      line_positions-after source start finish line lines (blank, after, before) above between,
    )

line_positions-Clear :
    (source : Text) (start finish : ℕ) (lines : List ℕ)
    → All (Between source start finish) lines
    → Increasing lines
    → Clear start finish (line_positions source lines)
unfolding line_position
line_positions-Clear source start finish [] between increasing = (tt, tt)
line_positions-Clear source start finish (n ∷ lines) ((blank, after, before), between)
      (first, increasing) =
    let (distinct, inside) = line_positions-Clear source start finish lines between increasing in
    (
      (
        line_positions-after source start finish n lines (blank, after, before) first between,
        distinct,
      ),
      ((omega (arith, after), before), inside),
    )

module _ (uses : Span → Option Object) (comments : List Span) (source : Text) where
  -- What is found between two statements lies there.
  check_pair-Clear :
      (first second : Node)
      → Clear
          (span_of first).finish
          (span_of second).start
          (check_pair uses comments source first second)
  unfolding check_pair position_for
  check_pair-Clear first second =
      let start = (span_of first).finish in
      let finish = (span_of second).start in
      let line = 1 + newlines (take start source) in
      let lines = gap_lines line (split newline (slice start finish source)) in
      let found =
        line_positions-Clear source start finish lines (gap_lines-Between source start finish)
          (gap_lines-Increasing line (split newline (slice start finish source))) in
      elim (Bool-cases (
        not (simple_statement uses first)
        || (not (simple_statement uses second) || has_comment_between comments start finish))) [
          | inl e ↦ rw e (tt, tt)
          | inr e ↦ rw e found
        ]

  Fits-Clear :
      (lo hi : ℕ) (node : Node) (nested : Type 0)
      → (nested
          → Clear (span_of node).start (span_of node).finish (check_node uses comments source node))
      → Fits lo hi node nested
      → Clear lo hi (check_node uses comments source node)
  Fits-Clear lo hi node nested clear (inl none) =
      subst (Clear lo hi) (sym (has_statements-check_node uses comments source node none)) (tt, tt)
  Fits-Clear lo hi node nested clear (inr (below, has, above, fits)) =
      let (distinct, inside) = clear fits in
      (
        distinct,
        widen (span_of node).start (span_of node).finish lo hi
            (check_node uses comments source node) below above inside,
      )

  mutual
    unfolding IsNested check_node check_statements

    node-Clear :
        (node : Node)
        → IsNested node
        → Clear (span_of node).start (span_of node).finish (check_node uses comments source node)
    node-Clear (block_stmt span list) ordered =
        Parts-Clear span.start span.finish (check_statements uses comments source list)
          (check_nodes uses comments source list) (list-Parts span.start span.finish list ordered)
    node-Clear (case_clause span guard body) (colon, within, ordered) =
        clause-Clear span.start colon span.finish (check_statements uses comments source body)
          (check_nodes uses comments source guard) (check_nodes uses comments source body)
          (Within-le span.start colon guard within) (Ordered-le colon span.finish body ordered)
          (nodes-Clear span.start colon guard within) (list-Parts colon span.finish body ordered)
    node-Clear (comm_clause span guard body) (colon, within, ordered) =
        clause-Clear span.start colon span.finish (check_statements uses comments source body)
          (check_nodes uses comments source guard) (check_nodes uses comments source body)
          (Within-le span.start colon guard within) (Ordered-le colon span.finish body ordered)
          (nodes-Clear span.start colon guard within) (list-Parts colon span.finish body ordered)
    node-Clear (func_lit span nodes) within = nodes-Clear span.start span.finish nodes within
    node-Clear (assign_stmt span nodes) within = nodes-Clear span.start span.finish nodes within
    node-Clear (inc_dec_stmt span nodes) within = nodes-Clear span.start span.finish nodes within
    node-Clear (other span nodes) within = nodes-Clear span.start span.finish nodes within
    node-Clear (expr_stmt span node) fits =
        Fits-Clear span.start span.finish node (IsNested node) (node-Clear node) fits
    node-Clear (paren_expr span node) fits =
        Fits-Clear span.start span.finish node (IsNested node) (node-Clear node) fits
    node-Clear (call_expr span function arguments) (paren, below, fits, within) =
        Clear-append span.start paren span.finish (check_node uses comments source function)
          (check_nodes uses comments source arguments) below
          (Within-le paren span.finish arguments within)
          (Fits-Clear span.start paren function (IsNested function) (node-Clear function) fits)
          (nodes-Clear paren span.finish arguments within)
    node-Clear (ident span) nested = (tt, tt)
    node-Clear (selector_expr span node selected) fits =
        Fits-Clear span.start span.finish node (IsNested node) (node-Clear node) fits

    nodes-Clear :
        (lo hi : ℕ) (nodes : Nodes)
        → Within lo hi nodes
        → Clear lo hi (check_nodes uses comments source nodes)
    nodes-Clear lo hi nil within = (tt, tt)
    nodes-Clear lo hi (cons node nodes) (end, below, fits, within) =
        Clear-append lo end hi (check_node uses comments source node)
          (check_nodes uses comments source nodes) below (Within-le end hi nodes within)
          (Fits-Clear lo end node (IsNested node) (node-Clear node) fits)
          (nodes-Clear end hi nodes within)

    list-Parts :
        (lo hi : ℕ) (list : Nodes)
        → Ordered lo hi list
        → Parts lo hi
            (check_statements uses comments source list)
            (check_nodes uses comments source list)
    list-Parts lo hi nil ordered = ((tt, tt), (tt, tt), tt)
    list-Parts lo hi (cons first nil) (below, has, nested, above) =
        let (distinct, inside) = node-Clear first nested in
        let here =
          widen (span_of first).start (span_of first).finish lo (span_of first).finish
            (check_node uses comments source first) below (omega arith) inside in
        Parts-cons lo (span_of first).finish hi hi [] [] (check_node uses comments source first) []
          (omega (arith, below, has)) above (omega arith) (tt, tt) (distinct, here)
          ((tt, tt), (tt, tt), tt)
    list-Parts lo hi (cons first (cons second list))
          (below, has, nested, (after, more, deeper, ordered)) =
        let (distinct, inside) = node-Clear first nested in
        let here =
          widen (span_of first).start (span_of first).finish lo (span_of first).finish
            (check_node uses comments source first) below (omega arith) inside in
        let next : Ordered (span_of second).start hi (cons second list) =
          (omega arith, more, deeper, ordered) in
        Parts-cons lo (span_of first).finish (span_of second).start hi
          (check_pair uses comments source first second)
          (check_statements uses comments source (cons second list))
          (check_node uses comments source first)
          (check_nodes uses comments source (cons second list)) (omega (arith, below, has)) after
          (Ordered-le (span_of second).start hi (cons second list) next)
          (check_pair-Clear first second) (distinct, here)
          (list-Parts (span_of second).start hi (cons second list) next)

  -- No position is found twice in a file whose nodes are in order.
  pub check_node-Distinct :
      (file : Node) → IsNested file → Distinct (check_node uses comments source file)
  check_node-Distinct file nested = let (distinct, inside) = node-Clear file nested in distinct
