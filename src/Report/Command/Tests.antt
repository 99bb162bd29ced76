-- ===== src/Report/Command/Tests.antt =====
-- Runs of the commands on a machine whose Git knows two branches.
use medik8s_system_tests.Base.{
  replicate, zero, ◌<◌, ◌≤◌, Any, length, length-replicate, subst, sym, ap, ◌∙◌, inl, none, ℕ, ◌≡◌,
  refl, true, List, [], ◌∷◌, ◌++◌, some, arith, suc,
}
use medik8s_system_tests.Go.Strings.{split, Text, codes, text_eq}
use medik8s_system_tests.Report.Command.{
  raw_lines, Machine, get_remote_revisions, exec_command_with_stdout, remote_url,
}
use medik8s_system_tests.Report.Command.Revisions.{
  get_remote_revisions-too_long, ls_remote, get_remote_revisions-ls_remote,
}

abbrev revisions : List (Text × Text)
revisions = (codes "main", codes "f1") ∷ (codes "a/b", codes "f2") ∷ []

-- The state counts the commands.
abbrev machine : Machine ℕ
machine = record {
  removes_all = λ path w. (w, true);
  execute = λ command w. (suc w, some (ls_remote revisions));
  join = λ a b. a ++ (codes "/" ++ b);
}

get_remote_revisions-ls_remote_example :
    (get_remote_revisions machine remote_url (codes "*" ∷ []) 0).1 ≡ some revisions
get_remote_revisions-ls_remote_example =
    get_remote_revisions-ls_remote machine remote_url (codes "*" ∷ []) 0 revisions
      (
        ((refl, (refl, (refl, (refl, tt)))), (refl, (refl, tt)), omega arith),
        (((refl, (refl, (refl, tt))), (refl, (refl, tt)), omega arith), tt),
      )
      ((refl, tt), (tt, tt)) (unfold exec_command_with_stdout in refl)

abbrev long_line : Text
long_line = replicate 65536 97

-- A machine whose Git prints one long line.
abbrev long_machine : Machine ℕ
long_machine = record {
  removes_all = λ path w. (w, true);
  execute = λ command w. (w, some (long_line));
  join = λ a b. a ++ b;
}

split-replicate : (n : ℕ) → split 10 (replicate n 97) ≡ replicate n 97 ∷ []
unfolding split replicate
split-replicate zero = refl
split-replicate (suc n) = rw (split-replicate n) refl

raw_lines-replicate : (n : ℕ) → 0 < n → raw_lines (replicate n 97 ∷ []) ≡ replicate n 97 ∷ []
unfolding raw_lines replicate
raw_lines-replicate zero h = absurd (omega (arith, h))
raw_lines-replicate (suc n) h = refl

long_listed : Any (λ line. 65536 ≤ length line) (raw_lines (split 10 long_line))
long_listed =
    subst (λ lines. Any (λ line. 65536 ≤ length line) lines)
      (sym (ap raw_lines (split-replicate 65536) ∙ raw_lines-replicate 65536 (omega arith)))
      (inl (omega (arith, length-replicate {A = ℕ} 65536 97)))

get_remote_revisions-too_long_example : (get_remote_revisions long_machine remote_url [] 0).1 ≡ none
get_remote_revisions-too_long_example =
    get_remote_revisions-too_long long_machine remote_url [] 0 long_line
      (unfold exec_command_with_stdout in refl) long_listed
