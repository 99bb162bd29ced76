-- ===== src/Ownership/Sbr.antt =====
-- tests/sbr-operator/internal/sbrutils/ownership.go: what is its own, and the check before a run.
use medik8s_system_tests.Base.{
  Bool, ◌||◌, none, some, String, List, [], ◌∷◌, ◌++◌, if◌then◌else◌, ◌==◌, string_eq,
}
use medik8s_system_tests.Go.Strings.{codes, contains}
use medik8s_system_tests.Cluster.{ApiError, Kind, Object, Reply, ok, err, Env, M, pure, ◌>>=◌}
use medik8s_system_tests.Cluster
use medik8s_system_tests.Ownership.{OwnedRun, Suite}
use medik8s_system_tests.Ownership.Check.{Unclean, Operator, check_rest}

abbrev pub kind : String → String → String → Kind
kind group version name = record { group = group; version = version; name = name }

-- The kinds of cluster-scoped objects that OLM creates for an operator.
abbrev pub olm_kinds : List Kind
olm_kinds =
    kind "rbac.authorization.k8s.io" "v1" "ClusterRole"
    ∷ kind "rbac.authorization.k8s.io" "v1" "ClusterRoleBinding"
    ∷ kind "admissionregistration.k8s.io" "v1" "ValidatingWebhookConfiguration"
    ∷ kind "admissionregistration.k8s.io" "v1" "MutatingWebhookConfiguration"
    ∷ []

abbrev pub olm_label : String
olm_label = "olm.owner.namespace"

abbrev pub crd_group : String
crd_group = "storage-based-remediation.medik8s.io"

-- The kinds whose objects a clean cluster has none of, or none that name the operator.
abbrev pub checked_kinds : List Kind
checked_kinds =
    kind "operators.coreos.com" "v1alpha1" "ClusterServiceVersion"
    ∷ kind "operators.coreos.com" "v1alpha1" "Subscription"
    ∷ kind "operators.coreos.com" "v1alpha1" "InstallPlan"
    ∷ kind "apps" "v1" "Deployment"
    ∷ kind "apps" "v1" "DaemonSet"
    ∷ kind crd_group "v1alpha1" "StorageBasedRemediation"
    ∷ kind crd_group "v1alpha1" "StorageBasedRemediationConfig"
    ∷ kind crd_group "v1alpha1" "StorageBasedRemediationTemplate"
    ∷ []

unfoldable pub gather :
    Reply (List Object) → List Object × List ApiError → List Object × List ApiError
gather (ok items) (objects, failures) = (items ++ objects, failures)
gather (err e) (objects, failures) = (objects, e ∷ failures)

-- The loop of `clusterObjects`: a list call that fails is noted, and the loop goes on.
unfoldable pub list_owned : Env → String → List Kind → M (List Object × List ApiError)
unfolding gather
list_owned env namespace [] = pure ([], [])
list_owned env namespace (k ∷ kinds) = do
  r ← Cluster.list env k (some (olm_label, namespace))
  rest ← list_owned env namespace kinds
  pure (gather r rest)

unfoldable pub cluster_objects : Env → OwnedRun → M (List Object × List ApiError)
unfolding list_owned
cluster_objects env run = list_owned env run.namespace olm_kinds

abbrev pub suite : Suite
suite = record {
  run_label = "test.medik8s.io/sbr-upgrade-run";
  bound_key = none;
  binds = λ run object. ⊥;
  cluster_objects = cluster_objects;
}

-- The object of a checked kind that belongs to an installation of the operator.
unfoldable pub conflicts : Kind → Object → Bool
conflicts k object =
    let text =
      if k.group == "apps"
      then codes object.key.name
      else codes object.key.name ++ codes object.spec in
    k.group == crd_group || contains text (codes "storage-based-remediation")

abbrev pub operator : Operator
operator = record {
  cluster_objects = cluster_objects;
  checked_kinds = checked_kinds;
  conflicts = conflicts;
}

-- `CheckClean`
unfoldable pub check_clean : Env → String → M Unclean
check_clean env namespace = check_rest env operator namespace
