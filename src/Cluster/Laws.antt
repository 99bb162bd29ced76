-- ===== src/Cluster/Laws.antt =====
-- A poll that succeeds ended with a look that met its condition.
use medik8s_system_tests.Base.{ℕ, zero, suc, ◌≡◌, refl}
use medik8s_system_tests.Cluster.{
  History, M, pure, Verdict, met, unmet, stopped, PollEnd, success, timeout, poll, poll_next,
}

module _ {ℓ} {S : Type ℓ} (condition : S → M (S × Verdict)) where
  -- The last look: it began at `s` and `h`, met the condition, and left the history `h'`.
  abbrev pub LastLook : History → Type ℓ
  LastLook h' = (s : S) × (h : History) × ((condition s h).0.1 ≡ met) × (h' ≡ (condition s h).1)

  poll_next-LastLook :
      (again : M PollEnd) (s : S) (h : History) (verdict : Verdict)
      → (condition s h).0.1 ≡ verdict
      → ((again (condition s h).1).0 ≡ success → LastLook (again (condition s h).1).1)
      → (poll_next again verdict (condition s h).1).0 ≡ success
      → LastLook (poll_next again verdict (condition s h).1).1
  unfolding poll_next
  poll_next-LastLook again s h met v later e = (s, h, v, refl)
  poll_next-LastLook again s h unmet v later e = later e
  poll_next-LastLook again s h (stopped f) v later e = cc

  pub poll-LastLook :
      (rounds : ℕ) (s : S) (h : History)
      → (poll rounds condition s h).0 ≡ success
      → LastLook (poll rounds condition s h).1
  unfolding poll
  poll-LastLook zero s h e =
      poll_next-LastLook (pure timeout) s h (condition s h).0.1 refl (λ f. cc) e
  poll-LastLook (suc rounds) s h e =
      let (r, h') = condition s h in
      poll_next-LastLook (poll rounds condition r.0) s h r.1 refl (poll-LastLook rounds r.0 h') e
