-- ===== src/Ownership/Safety.antt =====
-- What `Cleanup` may delete. Every deletion is backed by an observation of the same run: an answer
-- of the API that shows the deleted key with the deleted UID under the run's marker.
pub mod Calls
pub mod Cleanup
use medik8s_system_tests.Base.{
  ◌≡◌, ◌≢◌, ◌⊎◌, inl, inr, true, Option, some, String, List, [], ◌∷◌, Any,
}
use medik8s_system_tests.Cluster.{Key, Object, ok, Event, got, listed, deleted, History, Env, M}
use medik8s_system_tests.Ownership.{OwnedRun, Suite, label_value, namespace_key}
use medik8s_system_tests.Ownership.Sbr.{olm_label}

-- A recorded UID that is empty fits every UID.
abbrev pub Fits : (recorded_uid uid : String) → Type 0
Fits recorded_uid uid = (recorded_uid ≡ "") ⊎ (uid ≡ recorded_uid)

-- The run looks for this key under this UID: the key of an object that it recorded, or its namespace.
abbrev pub Claims : OwnedRun → Key → String → Type 0
Claims run key uid =
    Any (λ object. (object.key ≡ key) × Fits object.uid uid) run.objects
    ⊎ ((key ≡ namespace_key run.namespace) × Fits run.namespace_uid uid)

module _ (suite : Suite) (run : OwnedRun) where
  -- The object has this key and UID.
  abbrev pub Is : Key → String → Object → Type 0
  Is key uid object = (object.key ≡ key) × (object.uid ≡ uid)

  -- The answer shows an object of the run with this key and UID: one that a `Get` of a claimed key
  -- found under the run's marker, one that a `Get` of the suite's own key found bound to the run, or
  -- one that a list call by OLM's ownership label found.
  abbrev pub Shows : Event → Key → String → Type 0
  Shows (got asked (ok object)) key uid =
      Is key uid object
      × ((label_value suite.run_label object.labels ≡ run.token) × Claims run asked uid
          ⊎ (suite.bound_key ≡ some asked) × suite.binds run object)
  Shows (listed kind (some (label, value)) (ok objects)) key uid =
      (label ≡ olm_label) × (value ≡ run.namespace) × Any (Is key uid) objects
  Shows _ key uid = ⊥

  abbrev pub Observed : History → Key → String → Type 0
  Observed [] key uid = ⊥
  Observed (e ∷ h) key uid = Shows e key uid ⊎ Observed h key uid

  -- Each deletion names a UID, and the calls before it show that UID.
  abbrev pub IsSafe : History → Type 0
  IsSafe [] = Unit
  IsSafe (deleted key uid r ∷ h) = (uid ≢ "") × Observed h key uid × IsSafe h
  IsSafe (_ ∷ h) = IsSafe h

  -- A stretch of calls: it adds no unbacked deletion, and what was observed stays so.
  pub record Step (h h' : History) : Type 0 where
    pub safe : IsSafe h → IsSafe h'
    pub observed : (key : Key) (uid : String) → Observed h key uid → Observed h' key uid

  pub Step-refl : (h : History) → Step h h
  Step-refl h = record { safe = λ s. s; observed = λ key uid o. o }

  pub Step-trans : {h h' h'' : History} → Step h h' → Step h' h'' → Step h h''
  Step-trans a b = record {
    safe = λ s. b.safe (a.safe s);
    observed = λ key uid o. b.observed key uid (a.observed key uid o);
  }

  -- All calls of the program are such a stretch.
  abbrev pub Steps {ℓ} : {A : Type ℓ} → M A → Type 0
  Steps m = (h : History) → Step h (m h).1
