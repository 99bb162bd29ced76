-- ===== src/Block/Heartbeats/Samples.antt =====
-- What `validateSequenceNumbers` collects, and what its success shows.
use medik8s_system_tests.Base.{
  ℕ, ◌≡◌, refl, ◌↔◌, ◌⊎◌, inl, inr, true, ◌&&◌, List, [], ◌∷◌, arith, ltb, Any, Bool-cases,
  Any-append_left, Any-append_right, Any-append_split, fold, fold-Any, ◌==◌, nat_eq,
}
use medik8s_system_tests.Block.Header.{SlotData}
use medik8s_system_tests.Block.Heartbeats.{Round, Samples, add_sample, add_slot, collect}

-- A slot of a pod in a round carries this positive sequence number of the node.
abbrev pub IsSample : ℕ → ℕ → SlotData → Type 0
IsSample node s slot =
    ((slot.has_data && ltb 0 slot.sequence) ≡ true) × (slot.node_id ≡ node) × (slot.sequence ≡ s)

abbrev pub Seen : ℕ → ℕ → List Round → Type 0
Seen node s reads = Any (λ round. Any (λ pod. Any (IsSample node s) pod.1) round) reads

-- The sample is in an entry of the node.
abbrev pub Sampled : ℕ → ℕ → Samples → Type 0
Sampled node s samples = Any (λ e. (e.0 ≡ node) × ((e.1 ≡ s) ⊎ Any (λ n. n ≡ s) e.2)) samples

add_sample-new :
    (node s other t : ℕ) (samples : Samples)
    → node ≡ other
    → s ≡ t
    → Sampled other t (add_sample node s samples)
unfolding add_sample
add_sample-new node s other t [] at here = inl (at, inl here)
add_sample-new node s other t ((m, first, sequences) ∷ samples) at here =
    elim (Bool-cases (m == node)) [
      | inl e ↦
          rw e
            (inl (ground arith, inr (Any-append_right (λ n. n ≡ t) sequences (s ∷ []) (inl here))))
      | inr e ↦ rw e (inr (add_sample-new node s other t samples at here))
    ]

add_sample-old :
    (node s other t : ℕ) (samples : Samples)
    → Sampled other t samples
    → Sampled other t (add_sample node s samples)
unfolding add_sample
add_sample-old node s other t [] h = elim h [ ]
add_sample-old node s other t ((m, first, sequences) ∷ samples) h = elim (Bool-cases (m == node)) [
  | inl e ↦ rw e (elim h [
    | inl (at, inl here) ↦ inl (at, inl here)
    | inl (at, inr later) ↦ inl (at, inr (Any-append_left (λ n. n ≡ t) sequences (s ∷ []) later))
    | inr found ↦ inr found
  ])
  | inr e ↦ rw e (elim h [
    | inl here ↦ inl here
    | inr found ↦ inr (add_sample-old node s other t samples found)
  ])
]

add_sample-split :
    (node s other t : ℕ) (samples : Samples)
    → Sampled other t (add_sample node s samples)
    → ((node ≡ other) × (s ≡ t)) ⊎ Sampled other t samples
unfolding add_sample
add_sample-split node s other t [] = λ h. elim h [
  | inl (at, inl here) ↦ inl (at, here)
  | inl (at, inr later) ↦ elim later [ ]
  | inr found ↦ elim found [ ]
]
add_sample-split node s other t ((m, first, sequences) ∷ samples) = elim (Bool-cases (m == node)) [
  | inl e ↦ rw e (λ h. elim h [
    | inl (at, inl here) ↦ inr (inl (at, inl here))
    | inl (at, inr later) ↦ elim (Any-append_split (λ n. n ≡ t) sequences (s ∷ []) later) [
      | inl before ↦ inr (inl (at, inr before))
      | inr last ↦ elim last [ inl same ↦ inl (ground arith, same) | inr bad ↦ elim bad [ ] ]
    ]
    | inr found ↦ inr (inr found)
  ])
  | inr e ↦ rw e (λ h. elim h [
    | inl here ↦ inr (inl here)
    | inr found ↦ elim (add_sample-split node s other t samples found) [
      | inl new ↦ inl new
      | inr old ↦ inr (inr old)
    ]
  ])
]

add_slot-Sampled :
    (node s : ℕ) (slot : SlotData) (samples : Samples)
    → Sampled node s (add_slot slot samples) ↔ (IsSample node s slot ⊎ Sampled node s samples)
unfolding add_slot
add_slot-Sampled node s slot samples = elim (Bool-cases (slot.has_data && ltb 0 slot.sequence)) [
  | inl e ↦ rw e (
    λ h. elim (add_sample-split slot.node_id slot.sequence node s samples h) [
      | inl (at, here) ↦ inl (refl, at, here)
      | inr old ↦ inr old
    ],
    λ h. elim h [
      | inl (live, at, here) ↦ add_sample-new slot.node_id slot.sequence node s samples at here
      | inr old ↦ add_sample-old slot.node_id slot.sequence node s samples old
    ],
  )
  | inr e ↦ rw e (inr, λ h. elim h [ inl (live, at, here) ↦ absurd (ground arith) | inr old ↦ old ])
]

-- The samples that are collected are those that some slot of some pod in some round carries.
pub collect-Seen :
    (node s : ℕ) (reads : List Round) → Sampled node s (collect reads []) ↔ Seen node s reads
unfolding collect
collect-Seen node s reads =
    let (to, from) =
      fold-Any (fold (λ pod. fold add_slot pod.1)) (Any (λ pod. Any (IsSample node s) pod.1))
        (Sampled node s)
        (fold-Any (λ pod. fold add_slot pod.1) (λ pod. Any (IsSample node s) pod.1) (Sampled node s)
          (λ pod.
            fold-Any add_slot (IsSample node s) (Sampled node s) (add_slot-Sampled node s) pod.1))
        reads [] in
    (λ h. elim (to h) [ inl seen ↦ seen | inr bad ↦ elim bad [ ] ], λ seen. from (inl seen))
