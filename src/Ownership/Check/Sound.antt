-- ===== src/Ownership/Check/Sound.antt =====
-- What a check that finds the cluster clean has seen.
use medik8s_system_tests.Base.{
  ◌≡◌, refl, inl, inr, true, false, none, String, List, [], ◌∷◌, Bool-cases, All, Option-cases,
}
use medik8s_system_tests.Cluster.{
  ApiError, Kind, Object, Reply, ok, err, Event, got, listed, History, Env, M,
}
use medik8s_system_tests.Cluster
use medik8s_system_tests.Ownership.{missing_api, namespace_key}
use medik8s_system_tests.Ownership.Check.{
  Unclean, clean, Operator, prior, first_conflict, check_listed, check_kinds, check_found,
  check_cluster, check_rest,
}

module _ (env : Env) (operator : Operator) where
  -- A list call's answer has no object of an installation: there is no such kind, or none conflicts.
  abbrev pub Passes : Kind → Reply (List Object) → Type 0
  Passes k (ok items) = All (λ o. operator.conflicts k o ≡ false) items
  Passes k (err e) = missing_api e ≡ true

  -- The history `h'` is `h` and one list call, without a selector, for each of the kinds in order,
  -- each with an answer that passes.
  abbrev pub Scanned : List Kind → History → History → Type 0
  Scanned [] h h' = h' ≡ h
  Scanned (k ∷ kinds) h h' =
      (r : Reply (List Object)) × Passes k r × Scanned kinds (listed k none r ∷ h) h'

  first_conflict-none :
      (k : Kind) (items : List Object)
      → first_conflict env operator k items ≡ none
      → All (λ o. operator.conflicts k o ≡ false) items
  unfolding first_conflict
  first_conflict-none k [] e = tt
  first_conflict-none k (o ∷ items) e = elim (Bool-cases (operator.conflicts k o)) [
    | inl conflict ↦ cc (conflict, e)
    | inr fine ↦ (fine, first_conflict-none k items (rw fine at e))
  ]

  check_listed-Scanned :
      (k : Kind) (kinds : List Kind) (rest : M Unclean) (r : Reply (List Object)) (h : History)
      → ((h' : History) → (rest h').0 ≡ clean → Scanned kinds h' (rest h').1)
      → (check_listed env operator k rest r (listed k none r ∷ h)).0 ≡ clean
      → Scanned (k ∷ kinds) h (check_listed env operator k rest r (listed k none r ∷ h)).1
  unfolding check_listed
  check_listed-Scanned k kinds rest (err f) h later e = elim (Bool-cases (missing_api f)) [
    | inl gone ↦ (err f, gone, rw gone (later (listed k none (err f) ∷ h) (rw gone at e)))
    | inr fault ↦ cc (fault, e)
  ]
  check_listed-Scanned k kinds rest (ok items) h later e =
      elim (Option-cases (first_conflict env operator k items)) [
        | inl fine ↦ (
          ok items,
          first_conflict-none k items fine,
          rw fine (later (listed k none (ok items) ∷ h) (rw fine at e)),
        )
        | inr (o, found) ↦ cc (found, e)
      ]

  check_kinds-Scanned :
      (kinds : List Kind) (h : History)
      → (check_kinds env operator kinds h).0 ≡ clean
      → Scanned kinds h (check_kinds env operator kinds h).1
  unfolding check_kinds Cluster.list
  check_kinds-Scanned [] h e = refl
  check_kinds-Scanned (k ∷ kinds) h e =
      check_listed-Scanned k kinds (check_kinds env operator kinds) (env.list h k none) h
        (check_kinds-Scanned kinds) e

  -- The namespace was asked for and does not exist, and then all kinds passed.
  abbrev pub IsClean : String → History → History → Type 0
  IsClean namespace h h' =
      (f : ApiError) × (f.is_not_found ≡ true)
      × Scanned operator.checked_kinds (got (namespace_key namespace) (err f) ∷ h) h'

  check_found-IsClean :
      (namespace : String) (r : Reply Object) (h : History)
      → (check_found env operator r (got (namespace_key namespace) r ∷ h)).0 ≡ clean
      → IsClean namespace h (check_found env operator r (got (namespace_key namespace) r ∷ h)).1
  unfolding check_found
  check_found-IsClean namespace (ok o) h e = cc
  check_found-IsClean namespace (err f) h e = elim (Bool-cases f.is_not_found) [
    | inl gone ↦ (
      f,
      gone,
      simp gone (
          check_kinds-Scanned operator.checked_kinds (got (namespace_key namespace) (err f) ∷ h)
            (simp gone at e)),
    )
    | inr fault ↦ cc (fault, e)
  ]

  check_cluster-IsClean :
      (namespace : String) (found : List Object × List ApiError) (h : History)
      → (check_cluster env operator namespace found h).0 ≡ clean
      → (found ≡ ([], [])) × IsClean namespace h (check_cluster env operator namespace found h).1
  unfolding check_cluster Cluster.get
  check_cluster-IsClean namespace (objects, f ∷ failures) h e = cc
  check_cluster-IsClean namespace (o ∷ objects, []) h e = cc
  check_cluster-IsClean namespace ([], []) h e =
      (refl, check_found-IsClean namespace (env.get h (namespace_key namespace)) h e)

  -- `CheckClean` accepts a cluster only after the search for cluster-scoped objects of the namespace
  -- found none and met no error, the API said that the namespace does not exist, and a list call for
  -- every checked kind either said that there is no such kind or showed no object of an installation.
  pub check_rest-IsClean :
      (namespace : String) (h : History)
      → (check_rest env operator namespace h).0 ≡ clean
      → let (found, h') = operator.cluster_objects env (prior namespace) h in
        (found ≡ ([], [])) × IsClean namespace h' (check_rest env operator namespace h).1
  unfolding check_rest
  check_rest-IsClean namespace h e =
      let (found, h') = operator.cluster_objects env (prior namespace) h in
      check_cluster-IsClean namespace found h' e
