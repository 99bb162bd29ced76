-- ===== src/Blanklines/Kept.antt =====
-- What `removeBlankLines` makes of a source and what `checkFile` finds in it.
use medik8s_system_tests.Base.{
  ℕ, ◌+◌, ◌-◌, ◌<◌, ◌≡◌, refl, sym, ap, ◌∙◌, subst, true, List, [], ◌∷◌, ◌++◌, Option, All,
  All-append, slice, take, Bool-cases, inl, inr, not, ◌||◌,
}
use medik8s_system_tests.Go.Strings.{Text, split}
use medik8s_system_tests.Blanklines.{
  Span, Node, Nodes, block_stmt, case_clause, comm_clause, func_lit, assign_stmt, inc_dec_stmt,
  other, expr_stmt, paren_expr, call_expr, ident, selector_expr, nil, cons, Object, span_of,
  Position, newline, newlines, line_start, position_for, line_position, line_positions, gap_lines,
  simple_statement, has_comment_between, check_pair, check_statements, check_node, check_nodes,
  remove_line, remove_lines, remove_blank_lines,
}
use medik8s_system_tests.Blanklines.Lines.{
  is_blank_line, delete_line, words, remove_line-line_start, words-delete_line,
  is_blank_line-delete_line, line_start-delete_line, line_start-less,
}
use medik8s_system_tests.Blanklines.Gap.Source.{Between, gap_lines-Between}
use medik8s_system_tests.Blanklines.Nested.{IsNested}
use medik8s_system_tests.Blanklines.Nested.Once.{check_node-Distinct}
use medik8s_system_tests.Blanklines.Sorted.{
  Descending, SortsDescending, SortsDescending-Descending, Permᴰ-All,
}

-- The start of a line that holds only white space.
abbrev pub IsBlankAt : (source : Text) → Position → Type 0
IsBlankAt source position =
    (n : ℕ) × (position.offset ≡ line_start n source) × (is_blank_line n source ≡ true)

-- A position further up stands as it did.
delete_line-IsBlankAt :
    (n : ℕ) (source : Text) (positions : List Position)
    → All (λ p. p.offset < line_start n source) positions
    → All (IsBlankAt source) positions
    → All (IsBlankAt (delete_line n source)) positions
delete_line-IsBlankAt n source [] before blank = tt
delete_line-IsBlankAt n source (p ∷ positions) (less, before) ((m, at, is), blank) =
    let above : m < n = line_start-less m n source (subst (λ k. k < line_start n source) at less) in
    (
      (
        m,
        at ∙ sym (line_start-delete_line m n source above),
        is_blank_line-delete_line m n source above is,
      ),
      delete_line-IsBlankAt n source positions before blank,
    )

pub words-remove_lines :
    (positions : List Position) (source : Text)
    → All (IsBlankAt source) positions
    → Descending positions
    → words (remove_lines positions source) ≡ words source
unfolding remove_lines
words-remove_lines [] source blank descending = refl
words-remove_lines (p ∷ positions) source ((n, at, is), blank) (before, descending) =
    let removed : remove_line p.offset source ≡ delete_line n source =
      ap (λ k. remove_line k source) at ∙ remove_line-line_start n source in
    ap (λ t. words (remove_lines positions t)) removed
    ∙ words-remove_lines positions (delete_line n source)
        (delete_line-IsBlankAt n source positions
          (subst (λ k. All (λ q. q.offset < k) positions) at before) blank)
        descending
    ∙ words-delete_line n source is

line_positions-IsBlankAt :
    (source : Text) (start finish : ℕ) (lines : List ℕ)
    → All (Between source start finish) lines
    → All (IsBlankAt source) (line_positions source lines)
unfolding line_position
line_positions-IsBlankAt source start finish [] h = tt
line_positions-IsBlankAt source start finish (n ∷ lines) ((blank, after, before), h) =
    ((n - 1, refl, blank), line_positions-IsBlankAt source start finish lines h)

module _ (uses : Span → Option Object) (comments : List Span) (source : Text) where
  check_pair-IsBlankAt :
      (first second : Node) → All (IsBlankAt source) (check_pair uses comments source first second)
  unfolding check_pair position_for
  check_pair-IsBlankAt first second =
      let found =
        line_positions-IsBlankAt source (span_of first).finish (span_of second).start
          (gap_lines (1 + newlines (take (span_of first).finish source))
            (split newline (slice (span_of first).finish (span_of second).start source)))
          (gap_lines-Between source (span_of first).finish (span_of second).start) in
      elim (Bool-cases (
        not (simple_statement uses first)
        || (not (simple_statement uses second)
            || has_comment_between comments (span_of first).finish (span_of second).start))) [
              | inl e ↦ rw e tt
              | inr e ↦ rw e found
            ]

  check_statements-IsBlankAt :
      (statements : Nodes)
      → All (IsBlankAt source) (check_statements uses comments source statements)
  unfolding check_statements
  check_statements-IsBlankAt nil = tt
  check_statements-IsBlankAt (cons first nil) = tt
  check_statements-IsBlankAt (cons first (cons second statements)) =
      All-append (IsBlankAt source) (check_pair uses comments source first second)
        (check_statements uses comments source (cons second statements))
        (check_pair-IsBlankAt first second) (check_statements-IsBlankAt (cons second statements))

  abbrev Blank : List Position → Type 0
  Blank found = All (IsBlankAt source) found

  both : (xs ys : List Position) → Blank xs → Blank ys → Blank (xs ++ ys)
  both = All-append (IsBlankAt source)

  mutual
    unfolding check_node

    node-Blank : (node : Node) → Blank (check_node uses comments source node)
    node-Blank (block_stmt span list) =
        both (check_statements uses comments source list) (check_nodes uses comments source list)
          (check_statements-IsBlankAt list) (nodes-Blank list)
    node-Blank (case_clause span guard body) =
        both (check_statements uses comments source body)
          (check_nodes uses comments source guard ++ check_nodes uses comments source body)
          (check_statements-IsBlankAt body)
          (both (check_nodes uses comments source guard) (check_nodes uses comments source body)
            (nodes-Blank guard) (nodes-Blank body))
    node-Blank (comm_clause span guard body) =
        both (check_statements uses comments source body)
          (check_nodes uses comments source guard ++ check_nodes uses comments source body)
          (check_statements-IsBlankAt body)
          (both (check_nodes uses comments source guard) (check_nodes uses comments source body)
            (nodes-Blank guard) (nodes-Blank body))
    node-Blank (func_lit span nodes) = nodes-Blank nodes
    node-Blank (assign_stmt span nodes) = nodes-Blank nodes
    node-Blank (inc_dec_stmt span nodes) = nodes-Blank nodes
    node-Blank (other span nodes) = nodes-Blank nodes
    node-Blank (expr_stmt span node) = node-Blank node
    node-Blank (paren_expr span node) = node-Blank node
    node-Blank (call_expr span function arguments) =
        both (check_node uses comments source function) (check_nodes uses comments source arguments)
          (node-Blank function) (nodes-Blank arguments)
    node-Blank (ident span) = tt
    node-Blank (selector_expr span node selected) = node-Blank node

    nodes-Blank : (nodes : Nodes) → Blank (check_nodes uses comments source nodes)
    nodes-Blank nil = tt
    nodes-Blank (cons node nodes) =
        both (check_node uses comments source node) (check_nodes uses comments source nodes)
          (node-Blank node) (nodes-Blank nodes)

  -- Whatever `checkFile` finds in a file is the start of a line that holds only white space.
  pub check_node-IsBlankAt :
      (file : Node) → All (IsBlankAt source) (check_node uses comments source file)
  check_node-IsBlankAt = node-Blank

  -- What `removeBlankLines` makes of a source by the positions that `checkFile` finds in it has the
  -- source's characters in their order, but for white space, when the nodes of the file are in order and
  -- `sort.Slice` puts the positions it is given from the greatest offset to the least.
  pub words-remove_blank_lines :
      (sort_slice : List Position → List Position) (file : Node)
      → SortsDescending sort_slice
      → IsNested file
      → words (remove_blank_lines sort_slice source (check_node uses comments source file))
        ≡ words source
  unfolding remove_blank_lines
  words-remove_blank_lines sort_slice file sorts nested =
      let found = check_node uses comments source file in
      words-remove_lines (sort_slice found) source
        (Permᴰ-All (IsBlankAt source) found (sort_slice found) (sorts found).0
          (check_node-IsBlankAt file))
        (SortsDescending-Descending sort_slice found sorts
          (check_node-Distinct uses comments source file nested))
