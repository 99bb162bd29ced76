-- ===== src/Cluster.antt =====
-- The Kubernetes API as the source uses it through controller-runtime's `client.Client`, and the
-- programs that call it. The client is no code of this repository: a cluster is any function from
-- the calls made so far to the next answer, so other actors, lost answers and failures are included.
pub mod Laws
use medik8s_system_tests.Base.{ℕ, zero, suc, Bool, Option, none, some, String, List, [], ◌∷◌}

-- What the source learns of an error: the answers of the predicates that it asks.
pub record ApiError : Type 0 where
  pub is_not_found : Bool
  pub is_no_match : Bool
  pub is_forbidden : Bool
  pub is_unauthorized : Bool
  pub message : String

-- `schema.GroupVersionKind`
pub record Kind : Type 0 where
  pub group : String
  pub version : String
  pub name : String

-- A kind with `client.ObjectKey`.
pub record Key : Type 0 where
  pub kind : Kind
  pub namespace : String
  pub name : String

abbrev pub Labels : Type 0
Labels = List (String × String)

-- The parts of an object that the source reads. `spec` is `fmt.Sprint(object.Object["spec"])`, and
-- `text_at` is what `unstructured.NestedString` returns at a path, the empty text for a field that
-- is missing or no text.
pub record Object : Type 0 where
  pub key : Key
  pub uid : String
  pub labels : Labels
  pub spec : String
  pub resource_version : String
  pub text_at : List String → String

pub data Reply (A : Type 0) : Type 0 where
  ok : A → Reply A
  err : ApiError → Reply A

-- One call with its answer. A list call has the label selector that it was given, if any; a delete
-- call has the UID of its precondition.
pub data Event : Type 0 where
  got : Key → Reply Object → Event
  listed : Kind → Option (String × String) → Reply (List Object) → Event
  created : Object → Reply Object → Event
  deleted : Key → String → Option ApiError → Event
  cleaned_package : (sdk namespace package_name : String) → Option String → Event

-- The calls made so far, the last one first.
abbrev pub History : Type 0
History = List Event

-- `poll_rounds` is how often `wait.PollUntilContextTimeout` calls its condition, beyond the first
-- time, before its context ends.
pub record Env : Type 0 where
  pub get : History → Key → Reply Object
  pub list : History → Kind → Option (String × String) → Reply (List Object)
  pub create : History → Object → Reply Object
  pub delete : History → Key → String → Option ApiError
  pub cleanup_package : History → (sdk namespace package_name : String) → Option String
  pub poll_rounds : History → ℕ

-- A program that calls the cluster.
abbrev pub M {ℓ} : Type ℓ → Type ℓ
M A = History → A × History

abbrev pub pure {ℓ} : {A : Type ℓ} → A → M A
pure a h = (a, h)

infixl 5 ◌>>=◌
abbrev pub ◌>>=◌ {ℓ κ} : {A : Type ℓ} {B : Type κ} → M A → (A → M B) → M B
◌>>=◌ m f h = let (a, h') = m h in f a h'

-- What a poll's condition returns: it is met, it is not, or an error that stops the poll.
pub data Verdict : Type 0 where
  met : Verdict
  unmet : Verdict
  stopped : ApiError → Verdict

-- How a poll ended.
pub data PollEnd : Type 0 where
  success : PollEnd
  timeout : PollEnd
  failed : ApiError → PollEnd

-- How a poll goes on after a look: `again` is the next one.
unfoldable pub poll_next : M PollEnd → Verdict → M PollEnd
poll_next again met = pure success
poll_next again unmet = again
poll_next again (stopped e) = pure (failed e)

-- The condition's loop, over a variable `s` of the caller that the condition assigns.
unfoldable pub poll {ℓ} : {S : Type ℓ} → ℕ → (S → M (S × Verdict)) → S → M PollEnd
unfolding poll_next
poll zero condition s = do (_, verdict) ← condition s; poll_next (pure timeout) verdict
poll (suc rounds) condition s = do
  (s', verdict) ← condition s
  poll_next (poll rounds condition s') verdict

module _ (env : Env) where
  unfoldable pub get : Key → M (Reply Object)
  get key h = let r = env.get h key in (r, got key r ∷ h)

  unfoldable pub list : Kind → Option (String × String) → M (Reply (List Object))
  list kind selector h = let r = env.list h kind selector in (r, listed kind selector r ∷ h)

  unfoldable pub create : Object → M (Reply Object)
  create object h = let r = env.create h object in (r, created object r ∷ h)

  unfoldable pub delete : Key → String → M (Option ApiError)
  delete key uid h = let r = env.delete h key uid in (r, deleted key uid r ∷ h)

  unfoldable pub cleanup_package : (sdk namespace package_name : String) → M (Option String)
  cleanup_package sdk namespace package_name h =
      let r = env.cleanup_package h sdk namespace package_name in
      (r, cleaned_package sdk namespace package_name r ∷ h)

  -- `wait.PollUntilContextTimeout(…, immediate = true, condition)`
  unfoldable pub poll_until {ℓ} : {S : Type ℓ} → (S → M (S × Verdict)) → S → M PollEnd
  unfolding poll
  poll_until condition s h = poll (env.poll_rounds h) condition s h
