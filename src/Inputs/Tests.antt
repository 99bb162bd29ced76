-- ===== src/Inputs/Tests.antt =====
-- A run on a concrete environment.
use medik8s_system_tests.Base.{◌≡◌, refl, false, [], ◌++◌, if◌then◌else◌, ◌==◌}
use medik8s_system_tests.Go.Strings.{Text, codes, text_eq, is_space, cut}
use medik8s_system_tests.Go.Strings.{trim_by}
use medik8s_system_tests.Inputs.{
  FbcUpgradeInputs, ok, Host, is_digest_pinned, is_member, getenv_trimmed, env_or_default,
  idms_path_or_shared, set_skip_cleanup, check_pinned, check_inputs, first_missing, read_inputs,
  load_for, load_fbc_upgrade_inputs,
}
use medik8s_system_tests.Inputs.Pinned.{IsComplete, load_fbc_upgrade_inputs-IsComplete}

abbrev image : Text
image = codes "quay.io/a@sha256:0123456789abcdef0123456789abcdef0123456789abcdef0123456789abcdef"

abbrev host : Host
host = record {
  getenv = λ key.
      if key == codes "SBR_FBC_CATALOG_IMAGE"
      then image
      else if key == codes "SBR_FBC_CANDIDATE_IMAGE"
      then image
      else if key == codes "SBR_FBC_CANDIDATE_VERSION"
      then codes " 0.2.0"
      else [];
  exists = λ path. false;
  to_upper = λ text. text;
  to_lower = λ text. text;
  join = λ directory name. directory ++ name;
}

abbrev inputs : FbcUpgradeInputs
inputs = record {
  catalog_image = image;
  catalog_name = codes "SBR-upgrade-candidate";
  idms_path = [];
  candidate_version = codes "0.2.0";
  candidate_image = image;
  channel = codes "stable";
  skip_cleanup = false;
}

loaded : load_fbc_upgrade_inputs host (codes "SBR") ≡ ok inputs
unfolding load_fbc_upgrade_inputs load_for check_inputs first_missing check_pinned set_skip_cleanup
    read_inputs getenv_trimmed env_or_default idms_path_or_shared is_digest_pinned is_member trim_by
    is_space cut
loaded = refl

load_fbc_upgrade_inputs-IsComplete_example : IsComplete inputs
load_fbc_upgrade_inputs-IsComplete_example =
    load_fbc_upgrade_inputs-IsComplete host (codes "SBR") inputs loaded
