-- ===== src/Ownership/Safety/Calls.antt =====
-- The single calls, the poll and the deletion of one observed object.
use medik8s_system_tests.Base.{
  ℕ, zero, suc, ◌≢◌, inl, inr, Option, none, some, String, arith, Bool-cases, ◌==◌, string_eq,
  eq_iff,
}
use medik8s_system_tests.Cluster.{
  ApiError, Kind, Key, Object, Reply, ok, err, Event, got, listed, deleted, cleaned_package,
  History, Env, M, Verdict, met, unmet, stopped, PollEnd, success, timeout, failed, poll, poll_next,
  pure, ◌>>=◌,
}
use medik8s_system_tests.Cluster
use medik8s_system_tests.Ownership.{
  OwnedRun, Suite, Failure, delete_identity, gone_look, object_gone, wait_deleted, delete_and_wait,
}
use medik8s_system_tests.Ownership.Safety.{Observed, Step, Step-refl, Step-trans, Steps}

module _ (env : Env) (suite : Suite) (run : OwnedRun) where
  abbrev StepOf : History → History → Type 0
  StepOf = Step suite run

  pub get-Steps : (key : Key) → Steps suite run (Cluster.get env key)
  unfolding Cluster.get
  get-Steps key h = record { safe = λ s. s; observed = λ k u o. inr o }

  pub list-Steps :
      (kind : Kind) (selector : Option (String × String))
      → Steps suite run (Cluster.list env kind selector)
  unfolding Cluster.list
  list-Steps kind selector h = record { safe = λ s. s; observed = λ k u o. inr o }

  pub cleanup_package-Steps :
      (sdk namespace p : String) → Steps suite run (Cluster.cleanup_package env sdk namespace p)
  unfolding Cluster.cleanup_package
  cleanup_package-Steps sdk namespace p h = record { safe = λ s. s; observed = λ k u o. inr o }

  pub delete-Step :
      (key : Key) (uid : String) (h : History)
      → uid ≢ ""
      → Observed suite run h key uid
      → Step suite run h (Cluster.delete env key uid h).1
  unfolding Cluster.delete
  delete-Step key uid h named seen = record {
    safe = λ s. (named, seen, s);
    observed = λ k u o. inr o;
  }

  poll_next-Steps :
      (again : M PollEnd) (verdict : Verdict)
      → Steps suite run again
      → Steps suite run (poll_next again verdict)
  unfolding poll_next
  poll_next-Steps again met step h = Step-refl suite run h
  poll_next-Steps again unmet step h = step h
  poll_next-Steps again (stopped e) step h = Step-refl suite run h

  pub poll-Steps {ℓ} :
      {S : Type ℓ} (condition : S → M (S × Verdict))
      → ((s : S) → Steps suite run (condition s))
      → (rounds : ℕ) (s : S) → Steps suite run (poll rounds condition s)
  unfolding poll
  poll-Steps condition steps zero s h =
      let (r, h') = condition s h in
      Step-trans suite run (steps s h) (poll_next-Steps (pure timeout) r.1 (Step-refl suite run) h')
  poll-Steps condition steps (suc rounds) s h =
      let (r, h') = condition s h in
      Step-trans suite run (steps s h)
        (poll_next-Steps (poll rounds condition r.0) r.1 (poll-Steps condition steps rounds r.0) h')

  pub poll_until-Steps {ℓ} :
      {S : Type ℓ} (condition : S → M (S × Verdict)) (s : S)
      → ((s : S) → Steps suite run (condition s))
      → Steps suite run (Cluster.poll_until env condition s)
  unfolding Cluster.poll_until
  poll_until-Steps condition s steps h = poll-Steps condition steps (env.poll_rounds h) s h

  pub delete_identity-Step :
      (object : Object) (h : History)
      → Observed suite run h object.key object.uid
      → Step suite run h (delete_identity env object h).1
  unfolding delete_identity
  delete_identity-Step object h seen = elim (Bool-cases (object.uid == "")) [
    | inl empty ↦ rw empty (Step-refl suite run h)
    | inr named ↦
        rw named (delete-Step object.key object.uid h (ground (arith, eq_iff object.uid "")) seen)
  ]

  pub >>=-Steps {ℓ κ} :
      {A : Type ℓ} {B : Type κ} (m : M A) (f : A → M B)
      → Steps suite run m
      → ((a : A) → Steps suite run (f a))
      → Steps suite run (m >>= f)
  >>=-Steps m f first rest h = let (a, h') = m h in Step-trans suite run (first h) (rest a h')

  object_gone-Steps : (current : Object) → Steps suite run (object_gone env current)
  unfolding object_gone gone_look
  object_gone-Steps current =
      >>=-Steps (Cluster.get env current.key) (gone_look env current) (get-Steps current.key)
        (elim [ ok found ↦ Step-refl suite run | err e ↦ Step-refl suite run ])

  wait_deleted-Steps :
      (current : Object) (d : Option Failure) → Steps suite run (wait_deleted env current d)
  unfolding wait_deleted
  wait_deleted-Steps current (some f) h = Step-refl suite run h
  wait_deleted-Steps current none h = poll_until-Steps (object_gone env) current object_gone-Steps h

  pub delete_and_wait-Step :
      (current : Object) (h : History)
      → Observed suite run h current.key current.uid
      → Step suite run h (delete_and_wait env current h).1
  unfolding delete_and_wait
  delete_and_wait-Step current h seen =
      let (d, h') = delete_identity env current h in
      Step-trans suite run (delete_identity-Step current h seen) (wait_deleted-Steps current d h')
