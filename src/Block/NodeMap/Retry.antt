-- ===== src/Block/NodeMap/Retry.antt =====
-- The five attempts of `readNodeMapFromPod`.
use medik8s_system_tests.Base.{
  ℕ, zero, suc, ◌+◌, ◌*◌, ◌<◌, ◌≡◌, refl, sym, ◌∙◌, ◌↔◌, ◌⊎◌, inl, inr, Option, arith, subst,
}
use medik8s_system_tests.Block.Bytes.{Bytes}
use medik8s_system_tests.Block.NodeMap.{
  NodeMap, Fault, Result, ok, fail, Device, read_node_map_once, read_node_map_from, read_node_map,
  read_attempts, no_valid_buffer,
}
use medik8s_system_tests.Block.NodeMap.Newest.{IsNewest, Reads, read_node_map_once-IsNewest}

Result-cases : {A : Type 0} (r : Result A) → ((e : Fault) × (r ≡ fail e)) ⊎ ((a : A) × (r ≡ ok a))
Result-cases (fail e) = inl (e, refl)
Result-cases (ok a) = inr (a, refl)

module _ (checksum : Bytes → ℕ) (decode : Bytes → Option NodeMap) (device : Device) where
  abbrev pub Attempt : ℕ → Result NodeMap → Type 0
  Attempt reads r = read_node_map_once checksum decode device reads ≡ r

  -- The answer of an attempt, when it has one.
  From : (left reads : ℕ) → Fault → Result NodeMap → Type 0
  From left reads last r = read_node_map_from checksum decode device left reads last ≡ r

  retry_next :
      (left reads : ℕ) (last e : Fault) (r : Result NodeMap)
      → Attempt reads (fail e)
      → From (suc left) reads last r ↔ From left (reads + 2) e r
  unfolding From read_node_map_from read_node_map_once
  retry_next left reads last e r bad =
      let step : read_node_map_from checksum decode device (suc left) reads last
          ≡ read_node_map_from checksum decode device left (reads + 2) e =
        rw bad refl in
      (λ h. sym step ∙ h, λ h. step ∙ h)

  retry_found :
      (left reads : ℕ) (last : Fault) (nm : NodeMap)
      → Attempt reads (ok nm)
      → From (suc left) reads last (ok nm)
  unfolding From read_node_map_from read_node_map_once
  retry_found left reads last nm good = rw good refl

  retry_none : (reads : ℕ) (last : Fault) (nm : NodeMap) → From 0 reads last (ok nm) → ⊥
  unfolding From read_node_map_from read_node_map_once
  retry_none reads last nm h = absurd (ground arith)

  From-Attempt :
      (left reads : ℕ) (last : Fault) (nm : NodeMap)
      → From left reads last (ok nm)
      → (k : ℕ) × (k < left) × Attempt (reads + 2 * k) (ok nm)
  unfolding From
  From-Attempt zero reads last nm h = absurd (retry_none reads last nm h)
  From-Attempt (suc left) reads last nm h =
      elim (Result-cases (read_node_map_once checksum decode device reads)) [
        | inl (e, bad) ↦
            let (k, below, found) =
              From-Attempt left (reads + 2) e nm ((retry_next left reads last e (ok nm) bad).0 h) in
            let shift : (reads + 2) + 2 * k ≡ reads + 2 * suc k = omega arith in
            (suc k, omega arith, subst (λ (n : ℕ). Attempt n (ok nm)) shift found)
        | inr (other, good) ↦
            let same : ok other ≡ ok nm = sym (retry_found left reads last other good) ∙ h in
            let start : reads ≡ reads + 2 * 0 = omega arith in
            (0, omega arith, subst (λ (n : ℕ). Attempt n (ok nm)) start (good ∙ same))
      ]

  -- A run succeeds as soon as one attempt does.
  Attempt-From :
      (left reads : ℕ) (last : Fault) (k : ℕ) (nm : NodeMap)
      → k < left
      → Attempt (reads + 2 * k) (ok nm)
      → (found : NodeMap) × From left reads last (ok found)
  unfolding From
  Attempt-From zero reads last k nm below good = absurd (omega arith)
  Attempt-From (suc left) reads last zero nm below good =
      let start : reads + 2 * 0 ≡ reads = omega arith in
      (nm, retry_found left reads last nm (subst (λ (n : ℕ). Attempt n (ok nm)) start good))
  Attempt-From (suc left) reads last (suc k) nm below good =
      elim (Result-cases (read_node_map_once checksum decode device reads)) [
        | inr (other, good') ↦ (other, retry_found left reads last other good')
        | inl (e, bad) ↦
            let shift : reads + 2 * suc k ≡ (reads + 2) + 2 * k = omega arith in
            let (found, h) =
              Attempt-From left (reads + 2) e k nm (omega arith)
                (subst (λ (n : ℕ). Attempt n (ok nm)) shift good) in
            (found, (retry_next left reads last e (ok found) bad).1 h)
      ]

  -- When `readNodeMapFromPod` returns a node map, one of its five attempts read both buffers, the node
  -- map is the decoded payload of one of the two, under the generation of that buffer, and the other
  -- buffer is invalid or no newer.
  pub read_node_map-IsNewest :
      (nm : NodeMap)
      → read_node_map checksum decode device ≡ ok nm
      → (k : ℕ) × (k < 5)
        × (a b : Bytes) × (g : ℕ) × (Reads checksum device (2 * k) a b
            × IsNewest checksum decode nm g a b)
  unfolding read_node_map From
  read_node_map-IsNewest nm h =
      let (k, below, good) = From-Attempt read_attempts 0 no_valid_buffer nm h in
      let start : 0 + 2 * k ≡ 2 * k = omega arith in
      let good' = subst (λ (n : ℕ). Attempt n (ok nm)) start good in
      let (a, b, g, found) = read_node_map_once-IsNewest checksum decode device (2 * k) nm good' in
      (k, below, a, b, g, found)

  -- `readNodeMapFromPod` returns a node map whenever one of five attempts, made at its two reads,
  -- would succeed.
  pub read_node_map-Attempt :
      (k : ℕ) (nm : NodeMap)
      → k < 5
      → Attempt (2 * k) (ok nm)
      → (found : NodeMap) × (read_node_map checksum decode device ≡ ok found)
  unfolding read_node_map From
  read_node_map-Attempt k nm below good =
      let start : 2 * k ≡ 0 + 2 * k = omega arith in
      Attempt-From read_attempts 0 no_valid_buffer k nm below
        (subst (λ (n : ℕ). Attempt n (ok nm)) start good)
