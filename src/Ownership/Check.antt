-- ===== src/Ownership/Check.antt =====
-- `CheckClean` of the two ownership.go files, over what differs between them: `Operator`.
pub mod Sound
use medik8s_system_tests.Base.{Bool, Option, none, some, String, List, [], ◌∷◌, if◌then◌else◌}
use medik8s_system_tests.Cluster.{ApiError, Kind, Object, Reply, ok, err, Env, M, pure, ◌>>=◌}
use medik8s_system_tests.Cluster
use medik8s_system_tests.Ownership.{OwnedRun, missing_api, namespace_key}

-- The errors of `CheckClean`, in place of the texts.
pub data Unclean : Type 0 where
  clean : Unclean
  api : List ApiError → Unclean
  cluster_objects_exist : List Object → Unclean
  namespace_exists : Unclean
  object_exists : Object → Unclean

-- The kinds that are checked, and the test for an object that belongs to an installation.
pub record Operator : Type 0 where
  pub cluster_objects : Env → OwnedRun → M (List Object × List ApiError)
  pub checked_kinds : List Kind
  pub conflicts : Kind → Object → Bool

abbrev pub prior : String → OwnedRun
prior namespace = record {
  namespace = namespace;
  token = "";
  namespace_uid = "";
  objects = [];
  packages = [];
  sdk = "";
}

module _ (env : Env) (operator : Operator) where
  unfoldable pub first_conflict : Kind → List Object → Option Object
  first_conflict k [] = none
  first_conflict k (object ∷ objects) =
      if operator.conflicts k object then some object else first_conflict k objects

  unfoldable pub reject_first : M Unclean → Option Object → M Unclean
  reject_first rest (some object) = pure (object_exists object)
  reject_first rest none = rest

  -- How the loop goes on after one list call.
  unfoldable pub check_listed : Kind → M Unclean → Reply (List Object) → M Unclean
  unfolding reject_first
  check_listed k rest (err e) = if missing_api e then rest else pure (api (e ∷ []))
  check_listed k rest (ok items) = reject_first rest (first_conflict k items)

  unfoldable pub check_kinds : List Kind → M Unclean
  check_kinds [] = pure clean
  check_kinds (k ∷ kinds) = Cluster.list env k none >>= check_listed k (check_kinds kinds)

  unfoldable pub check_found : Reply Object → M Unclean
  check_found (ok _) = pure namespace_exists
  check_found (err e) =
      if e.is_not_found then check_kinds operator.checked_kinds else pure (api (e ∷ []))

  unfoldable pub check_cluster : String → List Object × List ApiError → M Unclean
  check_cluster namespace (objects, e ∷ failures) = pure (api (e ∷ failures))
  check_cluster namespace (o ∷ objects, []) = pure (cluster_objects_exist (o ∷ objects))
  check_cluster namespace ([], []) = Cluster.get env (namespace_key namespace) >>= check_found

  -- From the search for cluster-scoped objects on.
  unfoldable pub check_rest : String → M Unclean
  check_rest namespace = operator.cluster_objects env (prior namespace) >>= check_cluster namespace
