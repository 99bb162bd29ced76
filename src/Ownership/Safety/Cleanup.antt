-- ===== src/Ownership/Safety/Cleanup.antt =====
-- `Cleanup` as a whole.
use medik8s_system_tests.Base.{
  ◌≡◌, refl, inl, inr, String, List, [], ◌∷◌, ◌++◌, reverse, true, arith, Bool-cases, string_eq,
  eq_iff, All, All-append, All-map, All-reverse, Any,
}
use medik8s_system_tests.Cluster.{
  Key, Object, got, Verdict, Reply, ok, err, History, Env, M, pure, ◌>>=◌,
}
use medik8s_system_tests.Cluster
use medik8s_system_tests.Ownership.{
  OwnedRun, Suite, Failure, delete_identity, missing_api, owns, remaining_look, namespace_look,
  all_gone, cleanup_if_owned, cleanup_found, cleanup_object, cleanup_objects, cleanup_packages,
  delete_all, remaining_gone, await_gone, cleanup_owned, cleanup_namespace, cleanup, namespace_key,
  label_value,
}
use medik8s_system_tests.Ownership.Safety.{
  Fits, Claims, Observed, IsSafe, Step, Step-refl, Step-trans, Steps,
}
use medik8s_system_tests.Ownership.Safety.Calls.{
  get-Steps, cleanup_package-Steps, >>=-Steps, poll_until-Steps, delete_identity-Step,
  delete_and_wait-Step,
}

-- An object of a list is found in it under each UID that fits its own.
listed_here :
    (objects : List Object)
    → All
        (λ o. (uid : String) → Fits o.uid uid → Any (λ p. (p.key ≡ o.key) × Fits p.uid uid) objects)
        objects
listed_here [] = tt
listed_here (o ∷ objects) = (
  λ uid fits. inl (refl, fits),
  All-map objects (λ p found uid fits. inr (found uid fits)) (listed_here objects),
)

module _ (env : Env) (suite : Suite) (run : OwnedRun) where
  -- What the test before a deletion establishes.
  owns_sound :
      (recorded_uid : String) (current : Object)
      → owns env suite run recorded_uid current ≡ true
      → (label_value suite.run_label current.labels ≡ run.token) × Fits recorded_uid current.uid
  unfolding owns
  owns_sound recorded_uid current h = ground (
    arith,
    eq_iff (label_value suite.run_label current.labels) run.token,
    eq_iff recorded_uid "",
    eq_iff current.uid recorded_uid,
  )

  -- The run claims the object's key under each UID that fits the recorded one.
  abbrev IsClaimed : Object → Type 0
  IsClaimed object = (uid : String) → Fits object.uid uid → Claims run object.key uid

  pub got-Step : (key : Key) (r : Reply Object) (h : History) → Step suite run h (got key r ∷ h)
  got-Step key r h = record { safe = λ s. s; observed = λ k u o. inr o }

  cleanup_found-Step :
      (object : Object) (h : History) (r : Reply Object)
      → IsClaimed object
      → Step suite run h (cleanup_found env suite run object r (got object.key r ∷ h)).1
  unfolding cleanup_found
  cleanup_found-Step object h (err e) claimed = got-Step object.key (err e) h
  cleanup_found-Step object h (ok current) claimed =
      let looked = got-Step object.key (ok current) h in
      elim (Bool-cases (owns env suite run object.uid current)) [
        | inl mine ↦
            let (label, fits) = owns_sound object.uid current mine in
            rw mine (
              Step-trans suite run looked (
                delete_and_wait-Step env suite run current _
                  (inl ((refl, refl), inl (label, claimed current.uid fits)))))
        | inr other ↦ rw other looked
      ]

  cleanup_object-Steps :
      (object : Object) → IsClaimed object → Steps suite run (cleanup_object env suite run object)
  unfolding cleanup_object Cluster.get
  cleanup_object-Steps object claimed h = cleanup_found-Step object h (env.get h object.key) claimed

  cleanup_objects-Steps :
      (objects : List Object)
      → All IsClaimed objects
      → Steps suite run (cleanup_objects env suite run objects)
  unfolding cleanup_objects
  cleanup_objects-Steps [] claimed h = Step-refl suite run h
  cleanup_objects-Steps (object ∷ objects) claimed h =
      Step-trans suite run (cleanup_object-Steps object claimed.0 h)
        (cleanup_objects-Steps objects claimed.1 (cleanup_object env suite run object h).1)

  cleanup_packages-Steps :
      (packages : List String) → Steps suite run (cleanup_packages env suite run packages)
  unfolding cleanup_packages
  cleanup_packages-Steps [] h = Step-refl suite run h
  cleanup_packages-Steps (p ∷ packages) h =
      Step-trans suite run (cleanup_package-Steps env suite run run.sdk run.namespace p h)
        (cleanup_packages-Steps packages (Cluster.cleanup_package env run.sdk run.namespace p h).1)

  -- The history shows the object.
  abbrev pub IsObserved : History → Object → Type 0
  IsObserved h object = Observed suite run h object.key object.uid

  pub Step-IsObserved :
      {h h' : History} (objects : List Object)
      → Step suite run h h'
      → All (IsObserved h) objects
      → All (IsObserved h') objects
  Step-IsObserved objects step = All-map objects (λ o. step.observed o.key o.uid)

  delete_all-Step :
      (objects : List Object) (h : History)
      → All (IsObserved h) objects
      → Step suite run h (delete_all env suite objects h).1
  unfolding delete_all
  delete_all-Step [] h seen = Step-refl suite run h
  delete_all-Step (object ∷ objects) h seen =
      let first = delete_identity-Step env suite run object h seen.0 in
      Step-trans suite run first (
        delete_all-Step objects (delete_identity env object h).1
          (Step-IsObserved objects first seen.1))

  remaining_look-Steps :
      (rest : M Verdict) (r : Reply Object)
      → Steps suite run rest
      → Steps suite run (remaining_look env suite rest r)
  unfolding remaining_look
  remaining_look-Steps rest (ok o) step h = Step-refl suite run h
  remaining_look-Steps rest (err e) step h = elim (Bool-cases (missing_api e)) [
    | inl gone ↦ rw gone (step h)
    | inr fault ↦ rw fault (Step-refl suite run h)
  ]

  remaining_gone-Steps :
      (objects : List Object) → Steps suite run (remaining_gone env suite run objects)
  unfolding remaining_gone namespace_look
  remaining_gone-Steps [] =
      >>=-Steps env suite run (Cluster.get env (namespace_key run.namespace))
        (namespace_look env suite) (get-Steps env suite run (namespace_key run.namespace))
        (elim [ ok o ↦ Step-refl suite run | err e ↦ Step-refl suite run ])
  remaining_gone-Steps (object ∷ objects) =
      >>=-Steps env suite run (Cluster.get env object.key)
        (remaining_look env suite (remaining_gone env suite run objects))
        (get-Steps env suite run object.key)
        (λ r.
          remaining_look-Steps (remaining_gone env suite run objects) r
            (remaining_gone-Steps objects))

  await_gone-Steps : (objects : List Object) → Steps suite run (await_gone env suite run objects)
  unfolding await_gone all_gone
  await_gone-Steps objects h =
      poll_until-Steps env suite run (all_gone env suite run objects) tt
        (λ s h. remaining_gone-Steps objects h) h

-- What the cleanup needs of `clusterObjects`: it deletes nothing, and what it returns was observed.
abbrev pub FindsObserved : Suite → Type 0
FindsObserved suite =
    (env : Env) (run : OwnedRun) (h : History)
    → let (found, h') = suite.cluster_objects env run h in
      Step suite run h h' × All (λ o. Observed suite run h' o.key o.uid) found.0

module _ (env : Env) (suite : Suite) (run : OwnedRun) (finds : FindsObserved suite) where
  cleanup_owned-Step :
      (failures : List Failure) (namespace : Object) (h : History)
      → IsObserved env suite run h namespace
      → Step suite run h (cleanup_owned env suite run failures namespace h).1
  unfolding cleanup_owned
  cleanup_owned-Step failures namespace h seen =
      let (early, h1) = suite.cluster_objects env run h in
      let (_, h2) = cleanup_packages env suite run (reverse run.packages) h1 in
      let (late, h3) = suite.cluster_objects env run h2 in
      let found = early.0 ++ late.0 in
      let (_, h4) = delete_all env suite found h3 in
      let (_, h5) = delete_identity env namespace h4 in
      let (s1, seen1) = finds env run h in
      let s2 = cleanup_packages-Steps env suite run (reverse run.packages) h1 in
      let (s3, seen3) = finds env run h2 in
      let to_h3 : Step suite run h h3 = Step-trans suite run (Step-trans suite run s1 s2) s3 in
      let seen_found =
        All-append (IsObserved env suite run h3) early.0 late.0
          (Step-IsObserved env suite run early.0 (Step-trans suite run s2 s3) seen1) seen3 in
      let s4 : Step suite run h h4 =
        Step-trans suite run to_h3 (delete_all-Step env suite run found h3 seen_found) in
      let s5 : Step suite run h h5 = Step-trans suite run s4 (
        delete_identity-Step env suite run namespace h4
          (s4.observed namespace.key namespace.uid seen)) in
      Step-trans suite run s5 (await_gone-Steps env suite run (found ++ run.objects) h5)

  cleanup_if_owned-Step :
      (failures : List Failure) (h : History) (r : Reply Object)
      → Step suite run h
          (cleanup_if_owned env suite run failures r (got (namespace_key run.namespace) r ∷ h)).1
  unfolding cleanup_if_owned
  cleanup_if_owned-Step failures h (err e) =
      got-Step env suite run (namespace_key run.namespace) (err e) h
  cleanup_if_owned-Step failures h (ok namespace) =
      let looked = got-Step env suite run (namespace_key run.namespace) (ok namespace) h in
      elim (Bool-cases (owns env suite run run.namespace_uid namespace)) [
        | inl mine ↦
            let (label, fits) = owns_sound env suite run run.namespace_uid namespace mine in
            rw mine (
              Step-trans suite run looked (
                cleanup_owned-Step failures namespace _
                  (inl ((refl, refl), inl (label, inr (refl, fits))))))
        | inr other ↦ rw other looked
      ]

  pub cleanup-Steps : Steps suite run (cleanup env suite run)
  unfolding cleanup cleanup_namespace Cluster.get
  cleanup-Steps h =
      let (failures, h') = cleanup_objects env suite run (reverse run.objects) h in
      Step-trans suite run
        (cleanup_objects-Steps env suite run (reverse run.objects)
          (All-reverse _ run.objects (
            All-map run.objects (λ o found uid fits. inl (found uid fits))
              (listed_here run.objects)))
          h)
        (cleanup_if_owned-Step failures h' (env.get h' (namespace_key run.namespace)))

  -- Whatever the cluster answers and whoever else changes it, `Cleanup` sends a delete call only
  -- with a UID as its precondition, for a key and UID that an answer received before showed: of a
  -- `Get` that found the run's marker on an object or on the namespace of the run, with the UID
  -- that the run recorded, if it recorded one; or of a list call by OLM's ownership label and the
  -- run's namespace.
  pub cleanup-IsSafe :
      (h : History) → IsSafe suite run h → IsSafe suite run (cleanup env suite run h).1
  cleanup-IsSafe h = (cleanup-Steps h).safe
