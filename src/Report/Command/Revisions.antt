-- ===== src/Report/Command/Revisions.antt =====
-- `GetRemoteRevisions` reads what `git ls-remote` prints.
use medik8s_system_tests.Base.{
  Any, ◌≤◌, Option, none, Bool-cases, inl, inr, ◌≡◌, refl, ap, sym, ◌∙◌, ◌<◌, false, List, [], ◌∷◌,
  ◌++◌, some, length, leb, ltb, ◌==◌, nat_eq, map, arith, All, All-append, All-map, append-nil,
  append_assoc,
}
use medik8s_system_tests.Go.Strings.{
  Text, codes, text_eq, split, cut, cut_prefix, cut_here, cut_later, trim_prefix, or_text,
}
use medik8s_system_tests.Go.Split.{split_cons}
use medik8s_system_tests.Report.Cache.{set_revision}
use medik8s_system_tests.Report.Cache.Name.{cut_prefix-append}
use medik8s_system_tests.Report.Command.{
  add_revision, Machine, git, heads, drop_return, raw_lines, parse_revisions, parse_output,
  get_remote_revisions, exec_command_with_stdout, max_scan_token_size,
}

-- No control characters, as Git has it of the names of references.
abbrev pub IsPlain : Text → Type 0
IsPlain text = All (λ c. ltb c 32 ≡ false) text

abbrev pub line_of : (branch revision : Text) → Text
line_of branch revision = revision ++ (9 ∷ (heads ++ branch))

-- What `git ls-remote` prints of the branches.
abbrev pub ls_remote : List (Text × Text) → Text
ls_remote [] = []
ls_remote ((branch, revision) ∷ revisions) = line_of branch revision ++ (10 ∷ ls_remote revisions)

abbrev pub IsEntry : Text × Text → Type 0
IsEntry (branch, revision) =
    IsPlain branch × IsPlain revision × (length (line_of branch revision) < max_scan_token_size)

-- No branch is there twice.
abbrev pub Distinct : List (Text × Text) → Type 0
Distinct [] = Unit
Distinct ((branch, revision) ∷ revisions) =
    All (λ e. (branch == e.0) ≡ false) revisions × Distinct revisions

-- A line holds no end of a line.
abbrev IsLine : Text → Type 0
IsLine text = All (λ c. ((c == 10) ≡ false) × ((c == 13) ≡ false)) text

IsPlain-IsLine : (text : Text) → IsPlain text → IsLine text
IsPlain-IsLine [] h = tt
IsPlain-IsLine (c ∷ text) (here, h) =
    ((ground (arith, here), ground (arith, here)), IsPlain-IsLine text h)

line_of-IsLine :
    (branch revision : Text) → IsPlain branch → IsPlain revision → IsLine (line_of branch revision)
line_of-IsLine branch revision b r =
    All-append (λ c. ((c == 10) ≡ false) × ((c == 13) ≡ false)) revision (9 ∷ (heads ++ branch))
      (IsPlain-IsLine revision r)
      (
        (refl, refl),
        All-append (λ c. ((c == 10) ≡ false) × ((c == 13) ≡ false)) heads branch
            (IsPlain-IsLine heads (
              refl,
              (refl, (refl, (refl, (refl, (refl, (refl, (refl, (refl, (refl, (refl, tt)))))))))),
            ))
            (IsPlain-IsLine branch b),
      )

split-line :
    (line rest : Text) → IsLine line → split 10 (line ++ (10 ∷ rest)) ≡ line ∷ split 10 rest
unfolding split
split-line [] rest h = refl
split-line (c ∷ line) rest ((here, other), h) = rw (here, split-line line rest h) refl

raw_lines-split :
    (line text : Text) → raw_lines (line ∷ split 10 text) ≡ line ∷ raw_lines (split 10 text)
unfolding raw_lines
raw_lines-split line text = let (part, parts, e) = split_cons 10 text in rw e refl

drop_return-line : (line : Text) → IsLine line → drop_return line ≡ line
unfolding drop_return
drop_return-line [] h = refl
drop_return-line (c ∷ []) ((here, other), h) = rw other refl
drop_return-line (c ∷ d ∷ line) (here, h) = ap (λ t. c ∷ t) (drop_return-line (d ∷ line) h)

cut-tab :
    (revision rest : Text)
    → IsPlain revision
    → cut (revision ++ (9 ∷ rest)) (9 ∷ []) ≡ some (revision, rest)
unfolding cut cut_prefix cut_here cut_later
cut-tab [] rest h = refl
cut-tab (c ∷ revision) rest (here, h) =
    let other : (c == 9) ≡ false = ground (arith, here) in rw (other, cut-tab revision rest h) refl

trim_prefix-heads : (branch : Text) → trim_prefix (heads ++ branch) heads ≡ branch
unfolding trim_prefix
trim_prefix-heads branch = ap (or_text (heads ++ branch)) (cut_prefix-append heads branch)

abbrev IsFresh : Text → List (Text × Text) → Type 0
IsFresh branch revisions = All (λ e. (e.0 == branch) ≡ false) revisions

set_revision-fresh :
    (branch revision : Text) (revisions : List (Text × Text))
    → IsFresh branch revisions
    → set_revision branch revision revisions ≡ revisions ++ ((branch, revision) ∷ [])
unfolding set_revision
set_revision-fresh branch revision [] h = refl
set_revision-fresh branch revision ((other, old) ∷ revisions) (here, h) =
    rw here (ap (λ t. (other, old) ∷ t) (set_revision-fresh branch revision revisions h))

abbrev lines_of : List (Text × Text) → List Text
lines_of [] = []
lines_of ((branch, revision) ∷ revisions) = line_of branch revision ∷ lines_of revisions

lines-ls_remote :
    (revisions : List (Text × Text))
    → All IsEntry revisions
    → raw_lines (split 10 (ls_remote revisions)) ≡ lines_of revisions
unfolding raw_lines split
lines-ls_remote [] h = refl
lines-ls_remote ((branch, revision) ∷ revisions) ((b, r, short), h) =
    ap raw_lines (
      split-line (line_of branch revision) (ls_remote revisions)
        (line_of-IsLine branch revision b r))
    ∙ raw_lines-split (line_of branch revision) (ls_remote revisions)
    ∙ ap (λ t. line_of branch revision ∷ t) (lines-ls_remote revisions h)

-- What is fresh for the list and for one more entry.
IsFresh-All :
    (branch revision : Text) (before revisions : List (Text × Text))
    → All (λ e. IsFresh e.0 before) revisions
    → All (λ e. (branch == e.0) ≡ false) revisions
    → All (λ e. IsFresh e.0 (before ++ ((branch, revision) ∷ []))) revisions
IsFresh-All branch revision before [] h apart = tt
IsFresh-All branch revision before (e ∷ revisions) (fresh, h) (other, apart) = (
  All-append (λ f. (f.0 == e.0) ≡ false) before ((branch, revision) ∷ []) fresh (other, tt),
  IsFresh-All branch revision before revisions h apart,
)

parse_revisions-lines :
    (revisions before : List (Text × Text))
    → All IsEntry revisions
    → Distinct revisions
    → All (λ e. IsFresh e.0 before) revisions
    → parse_revisions (lines_of revisions) before ≡ some (before ++ revisions)
unfolding parse_revisions
parse_revisions-lines [] before h distinct fresh = ap some (sym (append-nil before))
parse_revisions-lines ((branch, revision) ∷ revisions) before ((b, r, short), h) (apart, distinct)
      (new, fresh) =
    let line = line_of branch revision in
    let fits : leb max_scan_token_size (length line) ≡ false = ground (arith, short) in
    let read : cut (drop_return line) (9 ∷ []) ≡ some (revision, heads ++ branch) =
      ap (λ t. cut t (9 ∷ [])) (drop_return-line line (line_of-IsLine branch revision b r))
      ∙ cut-tab revision (heads ++ branch) r in
    rw (fits, read)
      (ap (parse_revisions (lines_of revisions)) (
          ap (λ t. set_revision t revision before) (trim_prefix-heads branch)
          ∙ set_revision-fresh branch revision before new)
        ∙ parse_revisions-lines revisions (before ++ ((branch, revision) ∷ [])) h distinct
            (IsFresh-All branch revision before revisions fresh apart)
        ∙ ap some (append_assoc before ((branch, revision) ∷ []) revisions))

-- When Git prints the revisions of some branches, a line for each, `GetRemoteRevisions` returns these,
-- provided that the names and the revisions hold no control characters, no branch is there twice, and
-- each line is shorter than the scanner's limit.
pub get_remote_revisions-ls_remote :
    {W : Type 0} (machine : Machine W) (repo : Text) (branches : List Text) (w : W)
    (revisions : List (Text × Text))
    → All IsEntry revisions
    → Distinct revisions
    → (exec_command_with_stdout machine
        (git (codes "ls-remote" ∷ repo ∷ map (λ branch. heads ++ branch) branches) [])
        w).1
      ≡ some (ls_remote revisions)
    → (get_remote_revisions machine repo branches w).1 ≡ some revisions
unfolding get_remote_revisions parse_output
get_remote_revisions-ls_remote machine repo branches w revisions entries distinct prints =
    ap parse_output prints
    ∙ ap (λ t. parse_revisions t []) (lines-ls_remote revisions entries)
    ∙ parse_revisions-lines revisions [] entries distinct (All-map revisions (λ e h. tt) entries)

parse_revisions-too_long :
    (lines : List Text) (before : List (Text × Text))
    → Any (λ line. max_scan_token_size ≤ length line) lines
    → parse_revisions lines before ≡ none
unfolding parse_revisions
parse_revisions-too_long [] before any = elim any [ ]
parse_revisions-too_long (line ∷ lines) before any =
    elim (Bool-cases (leb max_scan_token_size (length line))) [
      | inl e ↦ rw e refl
      | inr e ↦ rw e (elim any [
        | inl here ↦ absurd (ground (arith, e, here))
        | inr later ↦
            add_revision-none (cut (drop_return line) (9 ∷ [])) (parse_revisions lines) before
              (λ revisions. parse_revisions-too_long lines revisions later)
      ])
    ]
  where
    add_revision-none :
        (parsed : Option (Text × Text)) (next : List (Text × Text) → Option (List (Text × Text)))
        (revisions : List (Text × Text))
        → ((kept : List (Text × Text)) → next kept ≡ none)
        → add_revision parsed next revisions ≡ none
    add_revision-none none next revisions h = refl
    add_revision-none (some (revision, branch)) next revisions h =
        h (set_revision (trim_prefix branch heads) revision revisions)

-- `GetRemoteRevisions` fails on an output with a line of 65536 bytes or more.
pub get_remote_revisions-too_long :
    {W : Type 0} (machine : Machine W) (repo : Text) (branches : List Text) (w : W) (stdout : Text)
    → (exec_command_with_stdout machine
        (git (codes "ls-remote" ∷ repo ∷ map (λ branch. heads ++ branch) branches) [])
        w).1
      ≡ some stdout
    → Any (λ line. max_scan_token_size ≤ length line) (raw_lines (split 10 stdout))
    → (get_remote_revisions machine repo branches w).1 ≡ none
unfolding get_remote_revisions parse_output
get_remote_revisions-too_long machine repo branches w stdout prints any =
    ap parse_output prints ∙ parse_revisions-too_long (raw_lines (split 10 stdout)) [] any
