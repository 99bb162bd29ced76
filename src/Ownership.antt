-- ===== src/Ownership.antt =====
-- tests/sbr-operator/internal/sbrutils/ownership.go and its sibling in nhc-operator: one execution
-- of an upgrade scenario, which owns a namespace and objects through a label of its own, and its
-- cleanup. The two files have the same text but for the run label and for `clusterObjects`, which
-- are the `Suite` below.
pub mod Check
pub mod Sbr
pub mod Nhc
pub mod Outcome
pub mod Safety
pub mod Finders
mod Tests
use medik8s_system_tests.Base.{
  ℕ, Bool, true, false, not, ◌&&◌, ◌||◌, Option, none, some, String, List, [], ◌∷◌, ◌++◌, map,
  reverse, if◌then◌else◌, ◌==◌, string_eq,
}
use medik8s_system_tests.Cluster.{
  ApiError, Kind, Key, Labels, Object, Reply, ok, err, Env, M, pure, ◌>>=◌, Verdict, met, unmet,
  stopped, PollEnd, success, timeout, failed,
}
use medik8s_system_tests.Cluster

-- The object that `CreateNamespace` and `Cleanup` name.
abbrev pub namespace_kind : Kind
namespace_kind = record { group = ""; version = "v1"; name = "Namespace" }

abbrev pub namespace_key : String → Key
namespace_key name = record { kind = namespace_kind; namespace = ""; name = name }

-- `labels[key]`: a missing key reads as the empty text.
abbrev pub label_value : String → Labels → String
label_value key [] = ""
label_value key ((k, v) ∷ labels) = if k == key then v else label_value key labels

-- `labels[key] = value`
abbrev pub set_label : String → String → Labels → Labels
set_label key value [] = (key, value) ∷ []
set_label key value ((k, v) ∷ labels) =
    if k == key then (key, value) ∷ labels else (k, v) ∷ set_label key value labels

-- What is joined into the error of `Cleanup`, in place of the texts.
pub data Failure : Type 0 where
  api : ApiError → Failure
  no_uid : (name : String) → Failure
  preserved : Key → Failure
  waiting : Key → PollEnd → Failure
  cluster : List ApiError → Failure
  package_cleanup : (package_name output : String) → Failure
  preserved_namespace : (name : String) → Failure
  remain : (namespace token : String) → PollEnd → Failure

-- `OwnedRun`; its `API` and `CleanupPackage` are the `Env`.
pub record OwnedRun : Type 0 where
  pub namespace : String
  pub token : String
  pub namespace_uid : String
  pub objects : List Object
  pub packages : List String
  pub sdk : String

-- What differs between the suites: the run label, and how all cluster-scoped objects of a run are
-- found, with the errors met on the way. For the theorems, also the cluster-scoped object that is
-- looked for by its name, if any, and what binds it to a run.
pub record Suite : Type 1 where
  pub run_label : String
  pub bound_key : Option Key
  pub binds : OwnedRun → Object → Type 0
  pub cluster_objects : Env → OwnedRun → M (List Object × List ApiError)

abbrev pub missing_api : ApiError → Bool
missing_api e = e.is_not_found || e.is_no_match

-- `client.IgnoreNotFound`
abbrev pub ignore_not_found : Option ApiError → Option ApiError
ignore_not_found none = none
ignore_not_found (some e) = if e.is_not_found then none else some e

abbrev pub failure_of : Option ApiError → Option Failure
failure_of none = none
failure_of (some e) = some (api e)

abbrev pub joined : Option Failure → List Failure
joined none = []
joined (some f) = f ∷ []

-- `errors.Join` of no error is nil, which appends nothing.
abbrev pub joined_cluster : List ApiError → List Failure
joined_cluster [] = []
joined_cluster (e ∷ es) = cluster (e ∷ es) ∷ []

module _ (env : Env) where
  unfoldable pub delete_identity : Object → M (Option Failure)
  delete_identity object =
      if object.uid == ""
      then pure (some (no_uid object.key.name))
      else do e ← Cluster.delete env object.key object.uid; pure (failure_of (ignore_not_found e))

  -- One look of the poll behind a deletion; a successful `Get` assigns `current`.
  unfoldable pub gone_look : Object → Reply Object → M (Object × Verdict)
  gone_look current (ok found) = pure (found, unmet)
  gone_look current (err e) = pure (current, if missing_api e then met else stopped e)

  unfoldable pub object_gone : Object → M (Object × Verdict)
  object_gone current = Cluster.get env current.key >>= gone_look current

  abbrev pub waiting_failure : Key → PollEnd → List Failure
  waiting_failure key success = []
  waiting_failure key timeout = waiting key timeout ∷ []
  waiting_failure key (failed e) = waiting key (failed e) ∷ []

  unfoldable pub wait_deleted : Object → Option Failure → M (List Failure)
  wait_deleted current (some f) = pure (f ∷ [])
  wait_deleted current none = do
    end ← Cluster.poll_until env object_gone current
    pure (waiting_failure current.key end)

  unfoldable pub delete_and_wait : Object → M (List Failure)
  delete_and_wait current = delete_identity current >>= wait_deleted current

module _ (env : Env) (suite : Suite) where
  -- `CreateNamespace`. A created object has the UID that the API answered with.
  unfoldable pub create_namespace : OwnedRun → M (OwnedRun × Option ApiError)
  create_namespace run = do
    r ← Cluster.create env (record {
      key = namespace_key run.namespace;
      uid = "";
      labels =
          (suite.run_label, run.token)
          ∷ ("security.openshift.io/scc.podSecurityLabelSync", "false")
          ∷ ("pod-security.kubernetes.io/enforce", "privileged")
          ∷ [];
      spec = "";
      resource_version = "";
      text_at = λ path. "";
    })
    elim r [
      | ok namespace ↦ pure (record run { namespace_uid = namespace.uid }, none)
      | err e ↦ pure (run, some e)
    ]

  abbrev pub marked : OwnedRun → Object → Object
  marked run object = record object { labels = set_label suite.run_label run.token object.labels }

  -- `Create`. The run keeps a pointer to the object, which a successful CREATE fills in; after a
  -- failed one it stays as it was marked.
  unfoldable pub create : OwnedRun → Object → M (OwnedRun × Option ApiError)
  create run object = do
    r ← Cluster.create env (marked run object)
    elim r [
      | ok filled ↦ pure (record run { objects = run.objects ++ (filled ∷ []) }, none)
      | err e ↦ pure (record run { objects = run.objects ++ (marked run object ∷ []) }, some e)
    ]

  -- The test before a deletion: the run's marker, and the recorded UID where there is one.
  unfoldable pub owns : OwnedRun → (recorded_uid : String) → Object → Bool
  owns run recorded_uid current =
      label_value suite.run_label current.labels == run.token
      && (recorded_uid == "" || current.uid == recorded_uid)

  unfoldable pub cleanup_found : OwnedRun → (recorded : Object) → Reply Object → M (List Failure)
  cleanup_found run recorded (err e) = pure (if missing_api e then [] else api e ∷ [])
  cleanup_found run recorded (ok current) =
      if owns run recorded.uid current
      then delete_and_wait env current
      else pure (preserved current.key ∷ [])

  unfoldable pub cleanup_object : OwnedRun → Object → M (List Failure)
  cleanup_object run object = Cluster.get env object.key >>= cleanup_found run object

  unfoldable pub cleanup_objects : OwnedRun → List Object → M (List Failure)
  cleanup_objects run [] = pure []
  cleanup_objects run (object ∷ objects) = do
    first ← cleanup_object run object
    rest ← cleanup_objects run objects
    pure (first ++ rest)

  unfoldable pub cleanup_packages : OwnedRun → List String → M (List Failure)
  cleanup_packages run [] = pure []
  cleanup_packages run (p ∷ packages) = do
    r ← Cluster.cleanup_package env run.sdk run.namespace p
    rest ← cleanup_packages run packages
    pure (elim r [ none ↦ rest | some output ↦ package_cleanup p output ∷ rest ])

  unfoldable pub delete_all : List Object → M (List Failure)
  delete_all [] = pure []
  delete_all (object ∷ objects) = do
    first ← delete_identity env object
    rest ← delete_all objects
    pure (joined first ++ rest)

  unfoldable pub namespace_look : Reply Object → M Verdict
  namespace_look (ok _) = pure unmet
  namespace_look (err e) = pure (if e.is_not_found then met else stopped e)

  unfoldable pub remaining_look : M Verdict → Reply Object → M Verdict
  remaining_look rest (ok _) = pure unmet
  remaining_look rest (err e) = if missing_api e then rest else pure (stopped e)

  -- The condition of the last poll: no object answers any more, nor does the namespace.
  unfoldable pub remaining_gone : OwnedRun → List Object → M Verdict
  remaining_gone run [] = Cluster.get env (namespace_key run.namespace) >>= namespace_look
  remaining_gone run (object ∷ objects) =
      Cluster.get env object.key >>= remaining_look (remaining_gone run objects)

  unfoldable pub all_gone : OwnedRun → List Object → Unit {0} → M (Unit {0} × Verdict)
  all_gone run objects s = do verdict ← remaining_gone run objects; pure (s, verdict)

  abbrev pub remain_failure : OwnedRun → PollEnd → List Failure
  remain_failure run success = []
  remain_failure run timeout = remain run.namespace run.token timeout ∷ []
  remain_failure run (failed e) = remain run.namespace run.token (failed e) ∷ []

  unfoldable pub await_gone : OwnedRun → List Object → M (List Failure)
  await_gone run objects = do
    end ← Cluster.poll_until env (all_gone run objects) tt
    pure (remain_failure run end)

  -- `Cleanup` from the point where the namespace is known to be the run's own.
  unfoldable pub cleanup_owned : OwnedRun → List Failure → Object → M (List Failure)
  cleanup_owned run failures namespace = do
    (early, early_errors) ← suite.cluster_objects env run
    packages ← cleanup_packages run (reverse run.packages)
    (late, late_errors) ← suite.cluster_objects env run
    deletions ← delete_all (early ++ late)
    last ← delete_identity env namespace
    rest ← await_gone run ((early ++ late) ++ run.objects)
    pure (
        failures
        ++ (joined_cluster early_errors
            ++ (packages ++ (joined_cluster late_errors ++ (deletions ++ (joined last ++ rest))))))

  unfoldable pub cleanup_if_owned : OwnedRun → List Failure → Reply Object → M (List Failure)
  cleanup_if_owned run failures (err e) =
      pure (if e.is_not_found then failures else failures ++ (api e ∷ []))
  cleanup_if_owned run failures (ok namespace) =
      if owns run run.namespace_uid namespace
      then cleanup_owned run failures namespace
      else pure (
          if run.namespace_uid == ""
          then failures
          else failures ++ (preserved_namespace namespace.key.name ∷ []))

  unfoldable pub cleanup_namespace : OwnedRun → List Failure → M (List Failure)
  cleanup_namespace run failures =
      Cluster.get env (namespace_key run.namespace) >>= cleanup_if_owned run failures

  -- `Cleanup`: every failure that it joins, in order; none is success.
  unfoldable pub cleanup : OwnedRun → M (List Failure)
  cleanup run = do
    failures ← cleanup_objects run (reverse run.objects)
    cleanup_namespace run failures
