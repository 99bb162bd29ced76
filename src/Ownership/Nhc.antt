-- ===== src/Ownership/Nhc.antt =====
-- tests/nhc-operator/internal/nhcutils/ownership.go: what is its own.
use medik8s_system_tests.Base.{
  ◌≡◌, Bool, not, ◌&&◌, ◌||◌, Option, some, String, List, [], ◌∷◌, ◌++◌, if◌then◌else◌, ◌==◌,
  string_eq,
}
use medik8s_system_tests.Go.Strings.{codes, text_eq, contains}
use medik8s_system_tests.Cluster.{ApiError, Kind, Key, Object, Reply, ok, err, Env, M, pure, ◌>>=◌}
use medik8s_system_tests.Cluster
use medik8s_system_tests.Ownership.{OwnedRun, Suite, Failure, missing_api, delete_identity}
use medik8s_system_tests.Ownership.Sbr.{kind, list_owned, olm_kinds}
use medik8s_system_tests.Ownership.Check.{Unclean, api, object_exists, Operator, check_rest}

-- `consolePlugin`
abbrev pub plugin_key : Key
plugin_key = record {
  kind = kind "console.openshift.io" "v1" "ConsolePlugin";
  namespace = "";
  name = "node-remediation-console-plugin";
}

abbrev pub backend_name : String
backend_name = "node-healthcheck-node-remediation-console-plugin"

abbrev pub backend_namespace_path : List String
backend_namespace_path = "spec" ∷ "backend" ∷ "service" ∷ "namespace" ∷ []

abbrev pub backend_name_path : List String
backend_name_path = "spec" ∷ "backend" ∷ "service" ∷ "name" ∷ []

-- The plugin's backend is NHC's service in this namespace.
unfoldable pub serves : String → Object → Bool
serves namespace plugin =
    plugin.text_at backend_namespace_path == namespace
    && plugin.text_at backend_name_path == backend_name

unfoldable pub plugin_objects : OwnedRun → Reply Object → List Object × List ApiError
plugin_objects run (ok plugin) = (if serves run.namespace plugin then plugin ∷ [] else [], [])
plugin_objects run (err e) = ([], if missing_api e then [] else e ∷ [])

abbrev pub append_found :
    List Object × List ApiError → List Object × List ApiError → List Object × List ApiError
append_found (objects, failures) (more, later) = (objects ++ more, failures ++ later)

-- `clusterObjects`: the console plugin of the run, and OLM's objects.
unfoldable pub cluster_objects : Env → OwnedRun → M (List Object × List ApiError)
cluster_objects env run = do
  r ← Cluster.get env plugin_key
  rest ← list_owned env run.namespace olm_kinds
  pure (append_found (plugin_objects run r) rest)

abbrev pub suite : Suite
suite = record {
  run_label = "test.medik8s.io/nhc-upgrade-run";
  bound_key = some plugin_key;
  binds = λ run plugin.
      (plugin.text_at backend_namespace_path ≡ run.namespace)
      × (plugin.text_at backend_name_path ≡ backend_name);
  cluster_objects = cluster_objects;
}

-- The kinds whose objects a clean cluster has none of, or none that name the operators.
abbrev pub checked_kinds : List Kind
checked_kinds =
    kind "operators.coreos.com" "v1alpha1" "ClusterServiceVersion"
    ∷ kind "operators.coreos.com" "v1alpha1" "Subscription"
    ∷ kind "operators.coreos.com" "v1alpha1" "InstallPlan"
    ∷ kind "apps" "v1" "Deployment"
    ∷ kind "apps" "v1" "DaemonSet"
    ∷ kind "remediation.medik8s.io" "v1alpha1" "NodeHealthCheck"
    ∷ kind "self-node-remediation.medik8s.io" "v1alpha1" "SelfNodeRemediation"
    ∷ kind "self-node-remediation.medik8s.io" "v1alpha1" "SelfNodeRemediationTemplate"
    ∷ []

-- The object of a checked kind that belongs to an installation of one of the operators.
unfoldable pub conflicts : Kind → Object → Bool
conflicts k object =
    let text =
      if k.group == "apps"
      then codes object.key.name
      else codes object.key.name ++ codes object.spec in
    k.group == "remediation.medik8s.io"
    || (k.group == "self-node-remediation.medik8s.io"
        || (contains text (codes "node-healthcheck")
            || contains text (codes "self-node-remediation")))

abbrev pub operator : Operator
operator = record {
  cluster_objects = cluster_objects;
  checked_kinds = checked_kinds;
  conflicts = conflicts;
}

unfoldable pub check_plugin : Env → String → Reply Object → M Unclean
check_plugin env namespace (ok plugin) = pure (object_exists plugin)
check_plugin env namespace (err e) =
    if missing_api e then check_rest env operator namespace else pure (api (e ∷ []))

-- `CheckClean`: the console plugin first, and then as in the SBR suite.
unfoldable pub check_clean : Env → String → M Unclean
check_clean env namespace = Cluster.get env plugin_key >>= check_plugin env namespace

-- How `DeleteOrphanConsolePlugin` ends.
pub data Orphan : Type 0 where
  absent : Orphan
  fault : ApiError → Orphan
  unexpected_backend : (namespace name : String) → Orphan
  backend_exists : Orphan
  deletion : Option Failure → Orphan

abbrev pub service_key : String → String → Key
service_key namespace name = record {
  kind = kind "" "v1" "Service";
  namespace = namespace;
  name = name;
}

unfoldable pub orphan_backend : Env → Object → Reply Object → M Orphan
orphan_backend env plugin (ok _) = pure backend_exists
orphan_backend env plugin (err e) =
    if e.is_not_found
    then delete_identity env plugin >>= (λ d. pure (deletion d))
    else pure (fault e)

unfoldable pub orphan_plugin : Env → String → Reply Object → M Orphan
orphan_plugin env namespace (err e) = pure (if missing_api e then absent else fault e)
orphan_plugin env namespace (ok plugin) =
    if serves namespace plugin
    then Cluster.get env
        (service_key (plugin.text_at backend_namespace_path) (plugin.text_at backend_name_path))
      >>= orphan_backend env plugin
    else pure (
        unexpected_backend (plugin.text_at backend_namespace_path)
          (plugin.text_at backend_name_path))

-- `DeleteOrphanConsolePlugin`
unfoldable pub delete_orphan_console_plugin : Env → String → M Orphan
delete_orphan_console_plugin env namespace =
    Cluster.get env plugin_key >>= orphan_plugin env namespace

-- `PauseResponse`
unfoldable pub pause_response : Object → (uid token previous_version : String) → Bool
pause_response object uid token previous_version =
    object.uid == uid
    && (not (object.resource_version == previous_version)
        && (object.text_at ("status" ∷ "phase" ∷ []) == "Paused"
            && codes (object.text_at ("status" ∷ "reason" ∷ []))
              == (codes "NHC is paused: " ++ codes token)))
