-- ===== src/Block/Heartbeats.antt =====
-- `validateSlotDataConsistency` and `validateSequenceNumbers`. A Go map is the list of its entries in the
-- order in which a `range` loop would meet them.
pub mod Bounds
pub mod Variance
pub mod Samples
pub mod Advance
use medik8s_system_tests.Base.{
  ℕ, zero, suc, ◌+◌, ◌-◌, ◌≤◌, ◌<◌, ◌≡◌, Bool, true, false, ◌&&◌, String, List, [], ◌∷◌, ◌++◌,
  length, fold, ltb, leb, ◌==◌, nat_eq, if◌then◌else◌,
}
use medik8s_system_tests.Block.Header.{SlotData}

-- What `range` yields of one round: the slots of each pod.
abbrev pub Round : Type 0
Round = List (String × List SlotData)

pub data Consistency : Type 0 where
  consistent no_slots : Consistency
  variance_too_high : (variance lowest highest : ℕ) → Consistency

abbrev pub max_allowed_variance : ℕ
max_allowed_variance = 5

-- `if n < lowest { lowest = n }` and `if n > highest { highest = n }`
unfoldable pub lower : (lowest n : ℕ) → ℕ
lower lowest n = if ltb n lowest then n else lowest

unfoldable pub raise : (highest n : ℕ) → ℕ
raise highest n = if ltb highest n then n else highest

-- The second loop, on `minSlots` and `maxSlots`.
unfoldable pub slot_range : Round → (lowest highest : ℕ) → ℕ × ℕ
unfolding lower raise
slot_range [] lowest highest = (lowest, highest)
slot_range ((pod, slots) ∷ round) lowest highest =
    slot_range round (lower lowest (length slots)) (raise highest (length slots))

unfoldable pub judge_range : ℕ × ℕ → Consistency
judge_range (lowest, highest) =
    if ltb max_allowed_variance (highest - lowest)
    then variance_too_high (highest - lowest) lowest highest
    else consistent

-- The entry met first gives the reference count.
unfoldable pub validate_slot_data_consistency : Round → Consistency
unfolding slot_range judge_range
validate_slot_data_consistency [] = no_slots
validate_slot_data_consistency ((pod, slots) ∷ round) =
    judge_range (slot_range ((pod, slots) ∷ round) (length slots) (length slots))

-- `sequencesByNode`: for each node its first sample and the later ones, in the order in which they
-- were appended. An entry is made with a sample in it, so that `sequences[0]` exists.
abbrev pub Samples : Type 0
Samples = List (ℕ × ℕ × List ℕ)

-- `sequencesByNode[node] = append(sequencesByNode[node], sequence)`
unfoldable pub add_sample : ℕ → ℕ → Samples → Samples
add_sample node sequence [] = (node, sequence, []) ∷ []
add_sample node sequence ((other, first, sequences) ∷ samples) =
    let later = add_sample node sequence samples in
    if other == node
    then (other, first, sequences ++ (sequence ∷ [])) ∷ samples
    else (other, first, sequences) ∷ later

unfoldable pub add_slot : SlotData → Samples → Samples
add_slot slot samples =
    if slot.has_data && ltb 0 slot.sequence
    then add_sample slot.node_id slot.sequence samples
    else samples

-- The three nested loops.
unfoldable pub collect : List Round → Samples → Samples
unfolding fold
collect = fold (fold (λ pod. fold add_slot pod.1))

pub data Heartbeat : Type 0 where
  all_advanced : Heartbeat
  too_few_nodes : (expected found : ℕ) → Heartbeat
  not_writing : (node lowest count : ℕ) → Heartbeat

unfoldable pub lowest_of : ℕ → List ℕ → ℕ
unfolding lower
lowest_of lowest [] = lowest
lowest_of lowest (s ∷ sequences) = lowest_of (lower lowest s) sequences

unfoldable pub highest_of : ℕ → List ℕ → ℕ
unfolding raise
highest_of highest [] = highest
highest_of highest (s ∷ sequences) = highest_of (raise highest s) sequences

-- The loop over the nodes.
unfoldable pub check_advanced : Samples → Heartbeat
unfolding lowest_of highest_of
check_advanced [] = all_advanced
check_advanced ((node, first, sequences) ∷ samples) =
    let lowest = lowest_of first (first ∷ sequences) in
    let highest = highest_of first (first ∷ sequences) in
    let rest = check_advanced samples in
    if leb highest lowest then not_writing node lowest (length (first ∷ sequences)) else rest

unfoldable pub validate_sequence_numbers : List Round → (expected_nodes : ℕ) → Heartbeat
validate_sequence_numbers reads expected_nodes =
    let samples = collect reads [] in
    if ltb (length samples) expected_nodes
    then too_few_nodes expected_nodes (length samples)
    else check_advanced samples
