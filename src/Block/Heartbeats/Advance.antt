-- ===== src/Block/Heartbeats/Advance.antt =====
-- What the success of `validateSequenceNumbers` shows about the heartbeats.
use medik8s_system_tests.Base.{
  ℕ, ◌≤◌, ◌<◌, ◌≡◌, refl, sym, ◌∙◌, ◌⊎◌, inl, inr, List, [], ◌∷◌, arith, length, ltb, leb, Any,
  Bool-cases,
}
use medik8s_system_tests.Block.Heartbeats.{
  lower, raise, Round, Samples, collect, all_advanced, lowest_of, highest_of, check_advanced,
  validate_sequence_numbers,
}
use medik8s_system_tests.Block.Heartbeats.Bounds.{
  lower-least, lower-either, raise-greatest, raise-either,
}
use medik8s_system_tests.Block.Heartbeats.Samples.{Seen, Sampled, collect-Seen}

abbrev pub Among : ℕ → ℕ → List ℕ → Type 0
Among n start xs = (start ≡ n) ⊎ Any (λ x. x ≡ n) xs

Among-cons :
    (n start next x : ℕ) (xs : List ℕ)
    → (next ≡ start) ⊎ (next ≡ x)
    → Among n next xs
    → Among n start (x ∷ xs)
Among-cons n start next x xs (inl e) (inl f) = inl (sym e ∙ f)
Among-cons n start next x xs (inr e) (inl f) = inr (inl (sym e ∙ f))
Among-cons n start next x xs e (inr found) = inr (inr found)

lowest_of-Among :
    (start : ℕ) (xs : List ℕ)
    → Among (lowest_of start xs) start xs × ((s : ℕ) → Among s start xs → lowest_of start xs ≤ s)
unfolding lowest_of
lowest_of-Among start [] =
    (inl refl, λ s h. elim h [ inl e ↦ omega arith | inr bad ↦ elim bad [ ] ])
lowest_of-Among start (x ∷ xs) =
    let (at, least) = lowest_of-Among (lower start x) xs in
    let (a, b) = lower-least start x in
    let self : lowest_of (lower start x) xs ≤ lower start x = least (lower start x) (inl refl) in
    (
      Among-cons (lowest_of (lower start x) xs) start (lower start x) x xs (lower-either start x)
          at,
      λ s h. elim h [
        | inl e ↦ omega arith
        | inr (inl e) ↦ omega arith
        | inr (inr found) ↦ least s (inr found)
      ],
    )

highest_of-Among :
    (start : ℕ) (xs : List ℕ)
    → Among (highest_of start xs) start xs × ((s : ℕ) → Among s start xs → s ≤ highest_of start xs)
unfolding highest_of
highest_of-Among start [] =
    (inl refl, λ s h. elim h [ inl e ↦ omega arith | inr bad ↦ elim bad [ ] ])
highest_of-Among start (x ∷ xs) =
    let (at, greatest) = highest_of-Among (raise start x) xs in
    let (a, b) = raise-greatest start x in
    let self : raise start x ≤ highest_of (raise start x) xs =
      greatest (raise start x) (inl refl) in
    (
      Among-cons (highest_of (raise start x) xs) start (raise start x) x xs (raise-either start x)
          at,
      λ s h. elim h [
        | inl e ↦ omega arith
        | inr (inl e) ↦ omega arith
        | inr (inr found) ↦ greatest s (inr found)
      ],
    )

-- The first sample stands twice in what the loop visits.
Among-once : (n first : ℕ) (xs : List ℕ) → Among n first (first ∷ xs) → Among n first xs
Among-once n first xs (inl e) = inl e
Among-once n first xs (inr (inl e)) = inl e
Among-once n first xs (inr (inr found)) = inr found

-- Two samples of the node, the sample between them, of which the second is newer than the first.
abbrev pub Moved : (ℕ → Type 0) → ℕ → Type 0
Moved IsOf s = (low high : ℕ) × IsOf low × IsOf high × (low < high) × (low ≤ s) × (s ≤ high)

check_advanced-cons :
    (m first : ℕ) (sequences : List ℕ) (samples : Samples)
    → check_advanced ((m, first, sequences) ∷ samples) ≡ all_advanced
    → (lowest_of first (first ∷ sequences) < highest_of first (first ∷ sequences))
      × (check_advanced samples ≡ all_advanced)
unfolding check_advanced
check_advanced-cons m first sequences samples =
    elim (Bool-cases
      (leb (highest_of first (first ∷ sequences)) (lowest_of first (first ∷ sequences)))) [
        | inl e ↦ rw e (λ h. absurd (ground arith))
        | inr e ↦ rw e (λ h. (ground arith, h))
      ]

check_advanced-Moved :
    (samples : Samples) (node s : ℕ)
    → check_advanced samples ≡ all_advanced
    → Sampled node s samples
    → Moved (λ n. Sampled node n samples) s
check_advanced-Moved [] node s h found = elim found [ ]
check_advanced-Moved ((m, first, sequences) ∷ samples) node s h (inr later) =
    let (up, rest) = check_advanced-cons m first sequences samples h in
    let (low, high, a, b, c, d, e) = check_advanced-Moved samples node s rest later in
    (low, high, inr a, inr b, c, d, e)
check_advanced-Moved ((m, first, sequences) ∷ samples) node s h (inl (at, within)) =
    let (up, rest) = check_advanced-cons m first sequences samples h in
    let (low_in, least) = lowest_of-Among first (first ∷ sequences) in
    let (high_in, greatest) = highest_of-Among first (first ∷ sequences) in
    let low = lowest_of first (first ∷ sequences) in
    let high = highest_of first (first ∷ sequences) in
    let visited : Among s first (first ∷ sequences) = elim within [
      | inl here ↦ inl here
      | inr later ↦ inr (inr later)
    ] in
    (
      low,
      high,
      inl (at, Among-once low first sequences low_in),
      inl (at, Among-once high first sequences high_in),
      up,
      least s visited,
      greatest s visited,
    )

validate_sequence_numbers-check :
    (reads : List Round) (expected_nodes : ℕ)
    → validate_sequence_numbers reads expected_nodes ≡ all_advanced
    → (expected_nodes ≤ length (collect reads []))
      × (check_advanced (collect reads []) ≡ all_advanced)
unfolding validate_sequence_numbers
validate_sequence_numbers-check reads expected_nodes =
    elim (Bool-cases (ltb (length (collect reads [])) expected_nodes)) [
      | inl e ↦ rw e (λ h. absurd (ground arith))
      | inr e ↦ rw e (λ h. (ground arith, h))
    ]

-- When the sequence numbers are found to advance, then for each positive sequence number that a slot
-- carries for a node in some read, the reads hold two of that node, one no greater and one no
-- smaller, of which the second is greater than the first.
pub validate_sequence_numbers-Moved :
    (reads : List Round) (expected_nodes node s : ℕ)
    → validate_sequence_numbers reads expected_nodes ≡ all_advanced
    → Seen node s reads
    → Moved (λ n. Seen node n reads) s
validate_sequence_numbers-Moved reads expected_nodes node s h seen =
    let (enough, advanced) = validate_sequence_numbers-check reads expected_nodes h in
    let (low, high, a, b, c, d, e) =
      check_advanced-Moved (collect reads []) node s advanced
        ((collect-Seen node s reads).1 seen) in
    (low, high, (collect-Seen node low reads).0 a, (collect-Seen node high reads).0 b, c, d, e)
