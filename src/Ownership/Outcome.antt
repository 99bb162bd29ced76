-- ===== src/Ownership/Outcome.antt =====
-- What a finished cleanup or check says of the cluster, and what a failed start leaves alone.
use medik8s_system_tests.Base.{
  ◌≡◌, refl, ◌≢◌, ◌⊎◌, inl, inr, true, String, List, [], ◌∷◌, ◌++◌, arith, Bool-cases, ◌==◌,
  string_eq, eq_iff, reverse,
}
use medik8s_system_tests.Cluster.{
  ApiError, Kind, Key, Object, Reply, ok, err, got, listed, History, Env, M, Verdict, met, unmet,
  stopped, PollEnd, success, timeout, failed, poll, poll_next, pure,
}
use medik8s_system_tests.Cluster
use medik8s_system_tests.Cluster.Laws.{poll-LastLook}
use medik8s_system_tests.Ownership.{
  OwnedRun, Suite, Failure, api, preserved_namespace, namespace_look, remaining_look,
  remaining_gone, all_gone, await_gone, remain_failure, cleanup_owned, cleanup_if_owned,
  cleanup_namespace, cleanup_objects, cleanup, cleanup_packages, delete_all, delete_identity,
  joined, joined_cluster, missing_api, namespace_key, owns, label_value,
}

-- The history `h'` is `h` and one look at each of the objects and then the namespace, in this order,
-- where the API answered each time that there is no such thing.
abbrev pub AllGone : (namespace : String) → List Object → History → History → Type 0
AllGone namespace [] h h' =
    (e : ApiError) × (h' ≡ got (namespace_key namespace) (err e) ∷ h) × (e.is_not_found ≡ true)
AllGone namespace (object ∷ objects) h h' =
    (e : ApiError) × (missing_api e ≡ true)
    × AllGone namespace objects (got object.key (err e) ∷ h) h'

append-eq-nil {ℓ} : {A : Type ℓ} (xs ys : List A) → xs ++ ys ≡ [] → (xs ≡ []) × (ys ≡ [])
append-eq-nil [] ys h = (refl, h)
append-eq-nil (x ∷ xs) ys h = cc

snoc-ne-nil {ℓ} : {A : Type ℓ} (xs : List A) (y : A) → xs ++ y ∷ [] ≢ []
snoc-ne-nil [] y h = cc
snoc-ne-nil (x ∷ xs) y h = cc

module _ (env : Env) (suite : Suite) (run : OwnedRun) where
  namespace_look-AllGone :
      (r : Reply Object) (h : History)
      → (namespace_look env suite r (got (namespace_key run.namespace) r ∷ h)).0 ≡ met
      → AllGone run.namespace [] h
          (namespace_look env suite r (got (namespace_key run.namespace) r ∷ h)).1
  unfolding namespace_look
  namespace_look-AllGone (ok o) h e = cc
  namespace_look-AllGone (err f) h e = (f, refl, ground arith)

  remaining_look-AllGone :
      (rest : M Verdict) (object : Object) (objects : List Object) (r : Reply Object) (h : History)
      → ((h' : History) → (rest h').0 ≡ met → AllGone run.namespace objects h' (rest h').1)
      → (remaining_look env suite rest r (got object.key r ∷ h)).0 ≡ met
      → AllGone run.namespace
          (object ∷ objects)
          h
          (remaining_look env suite rest r (got object.key r ∷ h)).1
  unfolding remaining_look
  remaining_look-AllGone rest object objects (ok o) h later e = cc
  remaining_look-AllGone rest object objects (err f) h later e = elim (Bool-cases (missing_api f)) [
    | inl gone ↦ (f, gone, rw gone (later (got object.key (err f) ∷ h) (rw gone at e)))
    | inr fault ↦ cc (fault, e)
  ]

  remaining_gone-AllGone :
      (objects : List Object) (h : History)
      → (remaining_gone env suite run objects h).0 ≡ met
      → AllGone run.namespace objects h (remaining_gone env suite run objects h).1
  unfolding remaining_gone Cluster.get
  remaining_gone-AllGone [] h e =
      namespace_look-AllGone (env.get h (namespace_key run.namespace)) h e
  remaining_gone-AllGone (object ∷ objects) h e =
      remaining_look-AllGone (remaining_gone env suite run objects) object objects
        (env.get h object.key) h (remaining_gone-AllGone objects) e

  await_gone-AllGone :
      (objects : List Object) (h : History)
      → (await_gone env suite run objects h).0 ≡ []
      → (h0 : History) × AllGone run.namespace objects h0 (await_gone env suite run objects h).1
  unfolding await_gone Cluster.poll_until
  await_gone-AllGone objects h e =
      let end = poll (env.poll_rounds h) (all_gone env suite run objects) tt h in
      let ended : end.0 ≡ success = remain_success end.0 e in
      let (_, h0, last, same) =
        poll-LastLook (all_gone env suite run objects) (env.poll_rounds h) tt h ended in
      (h0, rw same (unfold all_gone in remaining_gone-AllGone objects h0 last))
    where
      remain_success : (r : PollEnd) → remain_failure env suite run r ≡ [] → r ≡ success
      remain_success success p = refl
      remain_success timeout p = cc
      remain_success (failed f) p = cc

  append6-eq-nil :
      (a b c d f g z : List Failure)
      → a ++ (b ++ (c ++ (d ++ (f ++ (g ++ z))))) ≡ []
      → (a ≡ []) × (b ≡ []) × (c ≡ []) × (d ≡ []) × (z ≡ [])
  append6-eq-nil a b c d f g z e =
      let (a', e1) = append-eq-nil a _ e in
      let (b', e2) = append-eq-nil b _ e1 in
      let (c', e3) = append-eq-nil c _ e2 in
      let (d', e4) = append-eq-nil d _ e3 in
      let e5 = (append-eq-nil f _ e4).1 in (a', b', c', d', (append-eq-nil g z e5).1)

  -- From the history `h`, where the namespace was found, a search for the objects at cluster scope met no
  -- error, the cleanup of the packages behind it reported nothing, a second search behind that met no
  -- error, and the last look found gone all that the two searches found, all the objects of the run, and
  -- the namespace.
  abbrev pub Swept : History → History → Type 0
  Swept h h' =
      let (early, h1) = suite.cluster_objects env run h in
      let (packages, h2) = cleanup_packages env suite run (reverse run.packages) h1 in
      let (late, h3) = suite.cluster_objects env run h2 in
      (early.1 ≡ [])
      × (packages ≡ [])
      × (late.1 ≡ [])
      × ((h0 : History) × AllGone run.namespace ((early.0 ++ late.0) ++ run.objects) h0 h')

  -- What a cleanup that reports no failure ended with, where `h` is the history behind the cleanup of the
  -- objects of the run: the namespace was gone, and nothing was called behind this answer; or it was
  -- there, the run's own, and all was swept.
  abbrev pub AllClean : History → History → Type 0
  AllClean h h' =
      AllGone run.namespace [] h h'
      ⊎ ((namespace : Object) × (owns env suite run run.namespace_uid namespace ≡ true)
          × Swept (got (namespace_key run.namespace) (ok namespace) ∷ h) h')

  joined_cluster-nil : (errors : List ApiError) → joined_cluster errors ≡ [] → errors ≡ []
  joined_cluster-nil [] e = refl
  joined_cluster-nil (f ∷ errors) e = cc

  cleanup_owned-Swept :
      (failures : List Failure) (namespace : Object) (h : History)
      → (cleanup_owned env suite run failures namespace h).0 ≡ []
      → (failures ≡ []) × Swept h (cleanup_owned env suite run failures namespace h).1
  unfolding cleanup_owned
  cleanup_owned-Swept failures namespace h e =
      let (early, h1) = suite.cluster_objects env run h in
      let (packages, h2) = cleanup_packages env suite run (reverse run.packages) h1 in
      let (late, h3) = suite.cluster_objects env run h2 in
      let (deletions, h4) = delete_all env suite (early.0 ++ late.0) h3 in
      let (last, h5) = delete_identity env namespace h4 in
      let rest = await_gone env suite run ((early.0 ++ late.0) ++ run.objects) h5 in
      let (none', found, cleaned, again, quiet) =
        append6-eq-nil failures (joined_cluster early.1) packages (joined_cluster late.1) deletions
          (joined last) rest.0 e in
      (
        none',
        (
          joined_cluster-nil early.1 found,
          cleaned,
          joined_cluster-nil late.1 again,
          await_gone-AllGone ((early.0 ++ late.0) ++ run.objects) h5 quiet,
        ),
      )

  cleanup_if_owned-AllClean :
      (failures : List Failure) (r : Reply Object) (h : History)
      → run.namespace_uid ≢ ""
      → (cleanup_if_owned env suite run failures r (got (namespace_key run.namespace) r ∷ h)).0 ≡ []
      → (failures ≡ [])
        × AllClean h
            (cleanup_if_owned env suite run failures r (got (namespace_key run.namespace) r ∷ h)).1
  unfolding cleanup_if_owned
  cleanup_if_owned-AllClean failures (err f) h named e = elim (Bool-cases f.is_not_found) [
    | inl gone ↦ (simp gone at e, inl (f, refl, gone))
    | inr fault ↦ absurd (snoc-ne-nil failures (api f) (simp fault at e))
  ]
  cleanup_if_owned-AllClean failures (ok namespace) h named e =
      elim (Bool-cases (owns env suite run run.namespace_uid namespace)) [
        | inl mine ↦
            let (none', swept) =
              cleanup_owned-Swept failures namespace
                (got (namespace_key run.namespace) (ok namespace) ∷ h) (rw mine at e) in
            (none', rw mine (inr (namespace, mine, swept)))
        | inr other ↦ elim (Bool-cases (run.namespace_uid == "")) [
          | inl empty ↦ absurd (named ((eq_iff run.namespace_uid "").0 empty))
          | inr full ↦ absurd (
              snoc-ne-nil failures (preserved_namespace namespace.key.name) (rw (other, full) at e))
        ]
      ]

  -- When a cleanup of a run that acquired its namespace reports no failure, the cleanup of the run's
  -- objects reported none, and its next call is a Get of the namespace that is answered not found, and
  -- no other call follows; or the namespace was there and the run's own, the two searches for
  -- cluster-scoped objects and the cleanup of the packages between them met no error, and the last calls
  -- are Gets of all the objects that the two searches found, of all recorded objects and then of the
  -- namespace, each answered that there is no such thing.
  pub cleanup_success :
      (h : History)
      → run.namespace_uid ≢ ""
      → (cleanup env suite run h).0 ≡ []
      → let (failures, h') = cleanup_objects env suite run (reverse run.objects) h in
        (failures ≡ []) × AllClean h' (cleanup env suite run h).1
  unfolding cleanup cleanup_namespace Cluster.get
  cleanup_success h named e =
      let (failures, h') = cleanup_objects env suite run (reverse run.objects) h in
      cleanup_if_owned-AllClean failures (env.get h' (namespace_key run.namespace)) h' named e

  -- After a preflight that found somebody else's namespace, a run that created nothing calls
  -- `Cleanup` without any effect: one `Get`, no deletion, no package cleanup, and no failure.
  pub cleanup_foreign :
      (h : History) (namespace : Object)
      → run.namespace_uid ≡ ""
      → run.objects ≡ []
      → env.get h (namespace_key run.namespace) ≡ ok namespace
      → label_value suite.run_label namespace.labels ≢ run.token
      → cleanup env suite run h ≡ ([], got (namespace_key run.namespace) (ok namespace) ∷ h)
  unfolding cleanup cleanup_namespace cleanup_objects cleanup_if_owned owns Cluster.get
  cleanup_foreign h namespace unnamed nothing found other =
      rw (nothing, found)
        (ground (
          arith,
          eq_iff run.namespace_uid "",
          eq_iff (label_value suite.run_label namespace.labels) run.token,
        ))
