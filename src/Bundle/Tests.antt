-- ===== src/Bundle/Tests.antt =====
-- The tags of a repository, and two bundles that differ.
use medik8s_system_tests.Base.{ℕ, suc, ◌≡◌, refl, [], ◌∷◌, ◌++◌, List, some, nat_eq}
use medik8s_system_tests.Go.Strings.{Text, codes, text_eq}
use medik8s_system_tests.Bundle.{
  BundleCsv, OperatorArtifact, UpgradeOperatorInputs, Tools, repository_of,
}
use medik8s_system_tests.Bundle.Tags.{latest_ga_bundle}
use medik8s_system_tests.Bundle.Latest.{Picked, latest_ga_bundle-Picked}
use medik8s_system_tests.Bundle.Inspect.{resolve_and_verify_upgrade_operator_inputs}
use medik8s_system_tests.Bundle.Upgrade.{
  IsUpgrade, resolve_and_verify_upgrade_operator_inputs-IsUpgrade,
}

abbrev tags : List Text
tags = codes "v1.2.3" ∷ codes "v1.10.0" ∷ codes "v2.0.0-rc1" ∷ codes "v1.9.9" ∷ codes "latest" ∷ []

latest_tag : latest_ga_bundle (codes "r") tags ≡ some (codes "r:v1.10.0")
unfolding latest_ga_bundle
latest_tag = refl

latest_ga_bundle-Picked_example : Picked (codes "r") tags (latest_ga_bundle (codes "r") tags)
latest_ga_bundle-Picked_example = latest_ga_bundle-Picked (codes "r") tags

without_tag : repository_of (codes "h:5000/a/b:v1") ≡ codes "h:5000/a/b"
unfolding repository_of
without_tag = refl

without_digest : repository_of (codes "h:5000/b@sha256:c") ≡ codes "h:5000/b"
unfolding repository_of
without_digest = refl

-- What is written is the number of commands so far.
abbrev csv_of : Text → BundleCsv
csv_of content = record {
  annotations = λ key. content;
  version = content;
  deployments = (record { name = codes "manager"; image = content } ∷ []) ∷ [];
}

abbrev tools : Tools ℕ
tools = record {
  run_command = λ args w. (suc w, some (suc w ∷ []));
  mkdir_temp = λ w. (w, some (codes "/tmp/d"));
  mkdir_all = λ path w. (w, some tt);
  remove_tree = λ path w. w;
  glob = λ pattern w. some (pattern ∷ []);
  read_file = λ path w. some (w ∷ []);
  join = λ a b. a ++ (codes "/" ++ b);
  decode_tags = λ output. some tags;
  decode_digest = λ output. some (codes "sha256:" ++ output);
  decode_csv = λ content. some (csv_of content);
  decode_annotations = λ content. some (λ key. codes "sbr");
}

abbrev artifact : Text → OperatorArtifact
artifact bundle = record { bundle = bundle; version = []; image = [] }

abbrev inputs : UpgradeOperatorInputs
inputs = record {
  baseline_sbr = artifact (codes "a");
  candidate_sbr = artifact (codes "b");
  package_name = codes "sbr";
}

abbrev found : (pullspec : Text) → ℕ → OperatorArtifact
found pullspec n = record { bundle = pullspec; version = n ∷ []; image = n ∷ [] }

abbrev resolved : UpgradeOperatorInputs
resolved = record inputs {
  baseline_sbr = found (codes "a@sha256:" ++ (1 ∷ [])) 2;
  candidate_sbr = found (codes "b@sha256:" ++ (3 ∷ [])) 4;
}

is_resolved : (resolve_and_verify_upgrade_operator_inputs tools inputs 0).1 ≡ some resolved
unfolding resolve_and_verify_upgrade_operator_inputs
is_resolved = refl

resolve_and_verify_upgrade_operator_inputs-IsUpgrade_example : IsUpgrade tools inputs resolved
resolve_and_verify_upgrade_operator_inputs-IsUpgrade_example =
    resolve_and_verify_upgrade_operator_inputs-IsUpgrade tools inputs resolved 0 is_resolved
