-- ===== src/Ownership/Finders.antt =====
-- `clusterObjects` of each suite observes what it returns, so the cleanup of both suites is safe.
use medik8s_system_tests.Base.{
  ◌≡◌, refl, true, arith, eq_iff, inl, inr, some, List, [], ◌∷◌, Bool-cases, All, All-append,
  All-map, Any,
}
use medik8s_system_tests.Cluster.{ApiError, Kind, Object, Reply, ok, err, got, listed, History, Env}
use medik8s_system_tests.Cluster
use medik8s_system_tests.Ownership.{OwnedRun, Suite, cleanup}
use medik8s_system_tests.Ownership.Sbr.{list_owned, olm_label, olm_kinds}
use medik8s_system_tests.Ownership.Sbr
use medik8s_system_tests.Ownership.Nhc
use medik8s_system_tests.Ownership.Nhc.{plugin_key, plugin_objects, append_found, serves}
use medik8s_system_tests.Ownership.Safety.{Observed, IsSafe, Step, Step-refl, Step-trans}
use medik8s_system_tests.Ownership.Safety.Cleanup.{FindsObserved, cleanup-IsSafe, got-Step}

-- Each object of a list is found in it.
mem_self :
    (objects : List Object)
    → All (λ o. Any (λ p. (p.key ≡ o.key) × (p.uid ≡ o.uid)) objects) objects
mem_self [] = tt
mem_self (o ∷ objects) =
    (inl (refl, refl), All-map objects (λ p found. inr found) (mem_self objects))

module _ (env : Env) (suite : Suite) (run : OwnedRun) where
  -- A part of the search: it deletes nothing, and what it returned was observed.
  abbrev pub Found : History → List Object → History → Type 0
  Found h objects h' = Step suite run h h' × All (λ o. Observed suite run h' o.key o.uid) objects

  gather-Found :
      (kind : Kind) (r : Reply (List Object)) (rest : List Object × List ApiError) (h h' : History)
      → Found (listed kind (some (olm_label, run.namespace)) r ∷ h) rest.0 h'
      → Found h (Sbr.gather r rest).0 h'
  unfolding Sbr.gather
  gather-Found kind (err e) rest h h' (step, seen) = (Step-trans suite run listing step, seen)
    where
      listing : Step suite run h (listed kind (some (olm_label, run.namespace)) (err e) ∷ h)
      listing = record { safe = λ s. s; observed = λ k u o. inr o }
  gather-Found kind (ok items) rest h h' (step, seen) = (
    Step-trans suite run listing step,
    All-append _ items rest.0
        (All-map items (λ o found. step.observed o.key o.uid (inl (refl, refl, found)))
          (mem_self items))
        seen,
  )
    where
      listing : Step suite run h (listed kind (some (olm_label, run.namespace)) (ok items) ∷ h)
      listing = record { safe = λ s. s; observed = λ k u o. inr o }

  pub list_owned-Found :
      (kinds : List Kind) (h : History)
      → let (found, h') = list_owned env run.namespace kinds h in Found h found.0 h'
  unfolding list_owned Cluster.list
  list_owned-Found [] h = (Step-refl suite run h, tt)
  list_owned-Found (kind ∷ kinds) h =
      let r = env.list h kind (some (olm_label, run.namespace)) in
      let h' = listed kind (some (olm_label, run.namespace)) r ∷ h in
      let (rest, h'') = list_owned env run.namespace kinds h' in
      gather-Found kind r rest h h'' (list_owned-Found kinds h')

sbr-FindsObserved : FindsObserved Sbr.suite
unfolding Sbr.cluster_objects
sbr-FindsObserved env run h = list_owned-Found env Sbr.suite run olm_kinds h

-- Whatever the cluster answers, `Cleanup` of the SBR suite keeps it so that each delete call has a
-- nonempty UID as its precondition, and is for a key and UID that an earlier answer showed: of a `Get`
-- of a key that the run claims, under the run's marker and with the recorded UID if there is one, or
-- of a list call by OLM's ownership label and the run's namespace.
pub sbr_cleanup-IsSafe :
    (env : Env) (run : OwnedRun) (h : History)
    → IsSafe Sbr.suite run h
    → IsSafe Sbr.suite run (cleanup env Sbr.suite run h).1
sbr_cleanup-IsSafe env run h = cleanup-IsSafe env Sbr.suite run sbr-FindsObserved h

serves-bound :
    (run : OwnedRun) (plugin : Object)
    → serves run.namespace plugin ≡ true
    → Nhc.suite.binds run plugin
unfolding serves
serves-bound run plugin bound = ground (
  arith,
  bound,
  eq_iff (plugin.text_at Nhc.backend_namespace_path) run.namespace,
  eq_iff (plugin.text_at Nhc.backend_name_path) Nhc.backend_name,
)

-- The search of the NHC suite puts the console plugin first.
plugin-Found :
    (env : Env) (run : OwnedRun) (r : Reply Object) (rest : List Object × List ApiError)
    (h h' : History)
    → Found env Nhc.suite run (got plugin_key r ∷ h) rest.0 h'
    → Found env Nhc.suite run h (append_found (plugin_objects run r) rest).0 h'
unfolding plugin_objects
plugin-Found env run (err e) rest h h' (step, seen) =
    (Step-trans Nhc.suite run (got-Step env Nhc.suite run plugin_key (err e) h) step, seen)
plugin-Found env run (ok plugin) rest h h' (step, seen) =
    let looked = got-Step env Nhc.suite run plugin_key (ok plugin) h in
    elim (Bool-cases (serves run.namespace plugin)) [
      | inl bound ↦ rw bound (
        Step-trans Nhc.suite run looked step,
        (
          step.observed plugin.key plugin.uid
              (inl ((refl, refl), inr (refl, serves-bound run plugin bound))),
          seen,
        ),
      )
      | inr other ↦ rw other (Step-trans Nhc.suite run looked step, seen)
    ]

nhc-FindsObserved : FindsObserved Nhc.suite
unfolding Nhc.cluster_objects Cluster.get
nhc-FindsObserved env run h =
    let r = env.get h plugin_key in
    let h1 = got plugin_key r ∷ h in
    let (rest, h2) = list_owned env run.namespace olm_kinds h1 in
    plugin-Found env run r rest h h2 (list_owned-Found env Nhc.suite run olm_kinds h1)

-- Whatever the cluster answers, `Cleanup` of the NHC suite keeps it so that each delete call has a
-- nonempty UID as its precondition, and is for a key and UID that an earlier answer showed: in the
-- ways of the SBR suite, or of a `Get` of the console plugin whose backend is NHC's service in the
-- run's namespace.
pub nhc_cleanup-IsSafe :
    (env : Env) (run : OwnedRun) (h : History)
    → IsSafe Nhc.suite run h
    → IsSafe Nhc.suite run (cleanup env Nhc.suite run h).1
nhc_cleanup-IsSafe env run h = cleanup-IsSafe env Nhc.suite run nhc-FindsObserved h
