-- ===== src/Inputs.antt =====
-- tests/internal/medik8sparams/fbc_upgrade.go: the inputs of an upgrade test, from the environment. The
-- case mappings, `filepath.Join`, the variables and the files that exist are parameters.
pub mod Pinned
mod Tests
use medik8s_system_tests.Base.{
  ℕ, ◌≡◌, Bool, true, false, not, ◌&&◌, List, [], ◌∷◌, ◌++◌, Option, none, some, reverse, length,
  if◌then◌else◌, ◌==◌, nat_eq, ◌||◌,
}
use medik8s_system_tests.Go.Strings.{Text, codes, text_eq, cut, is_space, trim_by}

pub record FbcUpgradeInputs : Type 0 where
  pub catalog_image : Text
  pub catalog_name : Text
  pub idms_path : Text
  pub candidate_version : Text
  pub candidate_image : Text
  pub channel : Text
  pub skip_cleanup : Bool

-- The errors, in place of their texts.
pub data Fault : Type 0 where
  no_operator not_pinned_catalog not_pinned_candidate skip_cleanup_value : Fault
  missing : (key : Text) → Fault

pub data Result (A : Type 0) : Type 0 where
  ok : A → Result A
  fail : Fault → Result A

unfoldable pub is_member : Text → ℕ → Bool
is_member [] c = false
is_member (d ∷ cutset) c = d == c || is_member cutset c

abbrev pub digits : Text
digits = codes "0123456789abcdef"

unfoldable pub judge_digest : Option (Text × Text) → Bool
unfolding trim_by is_member
judge_digest none = false
judge_digest (some (name, digest)) =
    not (name == []) && (length digest == 64 && trim_by (is_member digits) digest == [])

unfoldable pub is_digest_pinned : Text → Bool
unfolding judge_digest
is_digest_pinned image = judge_digest (cut image (codes "@sha256:"))

abbrev pub or_missing : Option Text → Result FbcUpgradeInputs → Result FbcUpgradeInputs
or_missing (some key) checked = fail (missing key)
or_missing none checked = checked

unfoldable pub first_missing : List (Text × Text) → Option Text
first_missing [] = none
first_missing ((key, value) ∷ values) = if value == [] then some key else first_missing values

pub record Host : Type 0 where
  pub getenv : Text → Text
  pub exists : Text → Bool
  pub to_upper : Text → Text
  pub to_lower : Text → Text
  pub join : Text → Text → Text

module _ (host : Host) where
  unfoldable pub getenv_trimmed : Text → Text
  unfolding trim_by
  getenv_trimmed key = trim_by is_space (host.getenv key)

  abbrev pub env_name : Text → Text → Text
  env_name operator suffix = operator ++ (codes "_FBC_" ++ suffix)

  -- `envOrDefault`
  unfoldable pub env_or_default : (key fallback : Text) → Text
  env_or_default key fallback = if host.getenv key == [] then fallback else host.getenv key

  -- The path of the image mirror set, or that of the file in the shared directory, if it is there.
  unfoldable pub idms_path_or_shared : (idms_path shared_dir : Text) → Text
  idms_path_or_shared idms_path shared_dir =
      let shared = host.join shared_dir (codes "idms.yaml") in
      if (idms_path == [] && not (shared_dir == [])) && host.exists shared
      then shared
      else idms_path

  unfoldable pub read_inputs : (operator : Text) → FbcUpgradeInputs
  unfolding getenv_trimmed env_or_default idms_path_or_shared
  read_inputs operator = record {
    catalog_image = getenv_trimmed (env_name operator (codes "CATALOG_IMAGE"));
    catalog_name =
        env_or_default (env_name operator (codes "CATALOG_NAME"))
          (host.to_lower operator ++ codes "-upgrade-candidate");
    idms_path =
        idms_path_or_shared (getenv_trimmed (env_name operator (codes "IDMS_PATH")))
          (getenv_trimmed (codes "SHARED_DIR"));
    candidate_version = getenv_trimmed (env_name operator (codes "CANDIDATE_VERSION"));
    candidate_image = getenv_trimmed (env_name operator (codes "CANDIDATE_IMAGE"));
    channel = env_or_default (env_name operator (codes "CHANNEL")) (codes "stable");
    skip_cleanup = false;
  }

  unfoldable pub set_skip_cleanup : (value : Text) → FbcUpgradeInputs → Result FbcUpgradeInputs
  set_skip_cleanup value inputs =
      if value == [] || value == codes "false"
      then ok inputs
      else if value == codes "true"
      then ok (record inputs { skip_cleanup = true })
      else fail skip_cleanup_value

  unfoldable pub check_pinned : (skip_cleanup : Text) → FbcUpgradeInputs → Result FbcUpgradeInputs
  unfolding set_skip_cleanup
  check_pinned skip_cleanup inputs =
      if not (is_digest_pinned inputs.catalog_image)
      then fail not_pinned_catalog
      else if not (is_digest_pinned inputs.candidate_image)
      then fail not_pinned_candidate
      else set_skip_cleanup skip_cleanup inputs

  -- The map's entries in the order of the literal: another order can change which key is reported.
  abbrev pub required : (operator : Text) → FbcUpgradeInputs → List (Text × Text)
  required operator inputs =
      (env_name operator (codes "CATALOG_IMAGE"), inputs.catalog_image)
      ∷ (env_name operator (codes "CANDIDATE_VERSION"), inputs.candidate_version)
      ∷ (env_name operator (codes "CANDIDATE_IMAGE"), inputs.candidate_image)
      ∷ []

  unfoldable pub check_inputs : (operator : Text) → FbcUpgradeInputs → Result FbcUpgradeInputs
  unfolding check_pinned first_missing
  check_inputs operator inputs =
      or_missing (first_missing (required operator inputs))
        (check_pinned (getenv_trimmed (env_name operator (codes "SKIP_CLEANUP"))) inputs)

  unfoldable pub load_for : (operator : Text) → Result FbcUpgradeInputs
  unfolding check_inputs read_inputs
  load_for operator =
      if operator == [] then fail no_operator else check_inputs operator (read_inputs operator)

  unfoldable pub load_fbc_upgrade_inputs : (operator_name : Text) → Result FbcUpgradeInputs
  unfolding load_for
  load_fbc_upgrade_inputs operator_name = load_for (host.to_upper (trim_by is_space operator_name))
