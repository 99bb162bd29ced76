-- ===== src/Ownership/Tests.antt =====
-- A small cluster that answers, runs of the cleanup on it, and instances of the theorems.
use medik8s_system_tests.Base.{
  reverse, ◌≡◌, refl, Bool, true, false, none, String, List, [], ◌∷◌, ◌||◌, arith, ◌==◌, string_eq,
  eq_iff, if◌then◌else◌,
}
use medik8s_system_tests.Cluster.{
  ApiError, Key, Object, Reply, ok, err, Event, got, deleted, History, Env,
}
use medik8s_system_tests.Cluster
use medik8s_system_tests.Ownership.{
  OwnedRun, cleanup, namespace_key, cleanup_objects, cleanup_namespace, cleanup_if_owned,
  cleanup_owned, owns, delete_identity, delete_all, cleanup_packages, await_gone, all_gone,
  remaining_gone, remaining_look, namespace_look,
}
use medik8s_system_tests.Ownership.Sbr
use medik8s_system_tests.Ownership.Sbr.{suite, operator}
use medik8s_system_tests.Ownership.Nhc
use medik8s_system_tests.Ownership.Check.{
  clean, prior, check_rest, check_cluster, check_found, check_kinds, check_listed, first_conflict,
}
use medik8s_system_tests.Ownership.Check.Sound.{IsClean, check_rest-IsClean}
use medik8s_system_tests.Ownership.Safety.{IsSafe}
use medik8s_system_tests.Ownership.Finders.{sbr_cleanup-IsSafe, nhc_cleanup-IsSafe}
use medik8s_system_tests.Ownership.Outcome.{AllClean, cleanup_success, cleanup_foreign}

abbrev not_found : ApiError
not_found = record {
  is_not_found = true;
  is_no_match = false;
  is_forbidden = false;
  is_unauthorized = false;
  message = "not found";
}

abbrev owned_namespace : String → Object
owned_namespace token = record {
  key = namespace_key "sbr-upgrade";
  uid = "uid-1";
  labels = ("test.medik8s.io/sbr-upgrade-run", token) ∷ [];
  spec = "";
  resource_version = "1";
  text_at = λ path. "";
}

-- Whether a deletion was asked for.
abbrev was_deleted : History → Bool
was_deleted [] = false
was_deleted (deleted key uid r ∷ h) = true
was_deleted (e ∷ h) = was_deleted h

-- A cluster with the namespace of a run `token`, until it is deleted.
abbrev one_namespace : String → Env
one_namespace token = record {
  get = λ h key.
      if was_deleted h
      then err not_found
      else if key.kind.name == "Namespace"
      then ok (owned_namespace token)
      else err not_found;
  list = λ h kind selector. ok [];
  create = λ h object. ok object;
  delete = λ h key uid. none;
  cleanup_package = λ h sdk namespace p. none;
  poll_rounds = λ h. 3;
}

abbrev run : OwnedRun
run = record {
  namespace = "sbr-upgrade";
  token = "t1";
  namespace_uid = "uid-1";
  objects = [];
  packages = [];
  sdk = "operator-sdk";
}

program : Unit {0}
unfolding cleanup cleanup_objects cleanup_namespace cleanup_if_owned cleanup_owned owns Cluster.get
    Cluster.list Cluster.delete Cluster.poll_until delete_identity delete_all cleanup_packages
    await_gone all_gone remaining_gone remaining_look namespace_look Sbr.cluster_objects check_rest
    check_cluster check_found check_kinds check_listed first_conflict
program = tt

cleanup-run : (cleanup (one_namespace "t1") suite run []).0 ≡ []
unfolding program
cleanup-run = refl

-- A run that did not acquire its namespace.
abbrev refused_run : OwnedRun
refused_run = record run { namespace_uid = "" }

abbrev empty_cluster : Env
empty_cluster = record (one_namespace "t1") { get = λ h key. err not_found }

abbrev ends_with_name : List String → Bool
ends_with_name [] = false
ends_with_name (part ∷ path) = part == "name" || ends_with_name path

-- A cluster with the namespace of an NHC run and its console plugin, until something is deleted.
abbrev plugin_cluster : Env
plugin_cluster = record (one_namespace "t1") {
  get = λ h key.
      if was_deleted h
      then err not_found
      else if key.kind.name == "Namespace"
      then ok (record (owned_namespace "t1") {
        labels = ("test.medik8s.io/nhc-upgrade-run", "t1") ∷ [];
      })
      else if key.kind.name == "ConsolePlugin"
      then ok (record (owned_namespace "t1") {
        key = Nhc.plugin_key;
        uid = "uid-2";
        text_at = λ path. if ends_with_name path then Nhc.backend_name else "sbr-upgrade";
      })
      else err not_found;
}

sbr_cleanup-IsSafe_example : IsSafe suite run (cleanup (one_namespace "t1") suite run []).1
sbr_cleanup-IsSafe_example = sbr_cleanup-IsSafe (one_namespace "t1") run [] tt

nhc_cleanup-IsSafe_example : IsSafe Nhc.suite run (cleanup plugin_cluster Nhc.suite run []).1
nhc_cleanup-IsSafe_example = nhc_cleanup-IsSafe plugin_cluster run [] tt

cleanup_success_example :
    let (failures, h') = cleanup_objects (one_namespace "t1") suite run (reverse run.objects) [] in
    (failures ≡ [])
    × AllClean (one_namespace "t1") suite run h' (cleanup (one_namespace "t1") suite run []).1
cleanup_success_example =
    cleanup_success (one_namespace "t1") suite run [] (ground (arith, eq_iff "uid-1" ""))
      cleanup-run

cleanup_foreign_example :
    cleanup (one_namespace "other") suite refused_run []
    ≡ ([], got (namespace_key "sbr-upgrade") (ok (owned_namespace "other")) ∷ [])
cleanup_foreign_example =
    cleanup_foreign (one_namespace "other") suite refused_run [] (owned_namespace "other") refl refl
      refl (ground (arith, eq_iff "other" "t1"))

check-empty : (check_rest empty_cluster operator "sbr-upgrade" []).0 ≡ clean
unfolding program
check-empty = refl

check_rest-IsClean_example :
    let (found, h') = operator.cluster_objects empty_cluster (prior "sbr-upgrade") [] in
    (found ≡ ([], []))
    × IsClean empty_cluster operator "sbr-upgrade" h'
        (check_rest empty_cluster operator "sbr-upgrade" []).1
check_rest-IsClean_example = check_rest-IsClean empty_cluster operator "sbr-upgrade" [] check-empty
