-- ===== src/Block/Fences.antt =====
-- What `parseFenceSlots` reports of a fence region.
use native.Mathlib.Decide.{ℕ_discrete}
use medik8s_system_tests.Base.{
  ℕ, zero, suc, ◌+◌, ◌*◌, ◌<◌, ◌≤◌, ◌≡◌, refl, sym, ◌∙◌, subst, ◌⊎◌, inl, inr, true, false, List,
  [], ◌∷◌, some, arith, Bool-cases, Option-cases, Any,
}
use medik8s_system_tests.Block.Bytes.{Bytes}
use medik8s_system_tests.Block.Slices.{little_endian-field, get_or-slice}
use medik8s_system_tests.Block.FenceLayout.{
  byte_of, IsFence, message, fence_header, fence_header-cases,
}
use medik8s_system_tests.Block.Header.{
  block_slot_size, sbd_fence_msg_size, FenceSlot, slot_count, slot_region_is_zero, fence_slot,
  corrupt_slot, read_fence_slot, parse_fences_from, parse_fence_slots,
}

module _ (checksum : Bytes → ℕ) (bytes : Bytes) where
  -- The entry of a slot: of a fence message, with its fields; or of a slot that holds data and no such
  -- message, marked as corrupt.
  abbrev pub Describes : FenceSlot → ℕ → Type 0
  Describes s i =
      (IsFence checksum bytes i
        × (s.writer_node_id ≡ byte_of checksum bytes i 11 + 256 * byte_of checksum bytes i 12)
        × (s.target_node_id ≡ byte_of checksum bytes i 33 + 256 * byte_of checksum bytes i 34)
        × (s.reason ≡ byte_of checksum bytes i 35)
        × (s.corrupt ≡ false))
      ⊎ (¬ IsFence checksum bytes i) × (slot_region_is_zero bytes i ≡ false) × (s.corrupt ≡ true)

  fence_slot-Describes :
      (i : ℕ)
      → IsFence checksum bytes i
      → Describes (fence_slot checksum i (message checksum bytes i)) i
  unfolding fence_slot
  fence_slot-Describes i is =
      let start = i * block_slot_size in
      inl (
        is,
        omega (arith, little_endian-field start sbd_fence_msg_size 11 2 bytes (omega arith)),
        omega (arith, little_endian-field start sbd_fence_msg_size 33 2 bytes (omega arith)),
        get_or-slice start sbd_fence_msg_size 35 bytes 0 (omega arith),
        refl,
      )

  read_fence_slot-Describes :
      (i : ℕ) (s : FenceSlot)
      → read_fence_slot checksum bytes i ≡ some s
      → (s.slot_index ≡ i) × Describes s i
  unfolding read_fence_slot
  read_fence_slot-Describes i s e = elim (fence_header-cases checksum bytes i) [
    | inl (is, found) ↦
        let same : fence_slot checksum i (message checksum bytes i) ≡ s =
          ground (arith, found, e) in
        subst (λ (t : FenceSlot). (t.slot_index ≡ i) × Describes t i) same
          (unfold fence_slot in refl, fence_slot-Describes i is)
    | inr (isnt, missing) ↦ elim (Bool-cases (slot_region_is_zero bytes i)) [
      | inl empty ↦ cc (missing, empty, e)
      | inr written ↦
          let same : corrupt_slot checksum i ≡ s = ground (arith, missing, written, e) in
          subst (λ (t : FenceSlot). (t.slot_index ≡ i) × Describes t i) same
            (refl, inr (isnt, written, refl))
    ]
  ]

  -- A slot that holds data gets an entry, which has its index.
  read_fence_slot-total :
      (i : ℕ)
      → slot_region_is_zero bytes i ≡ false
      → (s : FenceSlot) × (read_fence_slot checksum bytes i ≡ some s) × (s.slot_index ≡ i)
  unfolding read_fence_slot fence_slot
  read_fence_slot-total i written = elim (Option-cases (fence_header checksum bytes i)) [
    | inl missing ↦ (corrupt_slot checksum i, rw (missing, written, read_fence_slot), refl)
    | inr (msg, found) ↦ (fence_slot checksum i msg, rw (found, read_fence_slot), refl)
  ]

  parse_fences_from_complete :
      (left start i : ℕ)
      → start ≤ i
      → i < start + left
      → slot_region_is_zero bytes i ≡ false
      → Any (λ s. s.slot_index ≡ i) (parse_fences_from checksum bytes left start)
  unfolding parse_fences_from
  parse_fences_from_complete zero start i low high written = absurd (omega arith)
  parse_fences_from_complete (suc left) start i low high written =
      elim (Option-cases (read_fence_slot checksum bytes start)) [
        | inl nothing ↦ elim (ℕ_discrete start i) [
          | yes here ↦
              let (s, found, _) = read_fence_slot-total i written in cc (nothing, found, here)
          | no there ↦
              rw (nothing, parse_fences_from)
                (parse_fences_from_complete left (start + 1) i (omega arith) (omega arith) written)
        ]
        | inr (s, found) ↦ elim (ℕ_discrete start i) [
          | yes here ↦
              rw (found, parse_fences_from)
                (inl ((read_fence_slot-Describes start s found).0 ∙ here))
          | no there ↦
              rw (found, parse_fences_from)
                (inr (
                  parse_fences_from_complete left (start + 1) i (omega arith) (omega arith)
                    written))
        ]
      ]

  -- Each slot of the region that is not all zero has an entry with its index: neither a fence request
  -- nor a damaged slot is taken for an empty one.
  pub parse_fence_slots_complete :
      (i : ℕ)
      → i < slot_count bytes
      → slot_region_is_zero bytes i ≡ false
      → Any (λ s. s.slot_index ≡ i) (parse_fence_slots checksum bytes)
  unfolding parse_fence_slots
  parse_fence_slots_complete i inside written =
      parse_fences_from_complete (slot_count bytes) 0 i (omega arith) (omega arith) written

  -- Entries describe slots of the region, the first index being `start`, in increasing order.
  abbrev pub DescribeFrom : (start stop : ℕ) → List FenceSlot → Type 0
  DescribeFrom start stop [] = Unit
  DescribeFrom start stop (s ∷ slots) =
      (start ≤ s.slot_index)
      × (s.slot_index < stop)
      × Describes s s.slot_index
      × DescribeFrom (s.slot_index + 1) stop slots

  DescribeFrom-weaken :
      (start start' stop : ℕ) (slots : List FenceSlot)
      → start' ≤ start
      → DescribeFrom start stop slots
      → DescribeFrom start' stop slots
  DescribeFrom-weaken start start' stop [] le h = tt
  DescribeFrom-weaken start start' stop (s ∷ slots) le h = (omega arith, h.1, h.2, h.3)

  parse_fences_from_sound :
      (left start stop : ℕ)
      → stop ≡ start + left
      → DescribeFrom start stop (parse_fences_from checksum bytes left start)
  unfolding parse_fences_from
  parse_fences_from_sound zero start stop e = tt
  parse_fences_from_sound (suc left) start stop e =
      let later = parse_fences_from_sound left (start + 1) stop (omega arith) in
      elim (Option-cases (read_fence_slot checksum bytes start)) [
        | inl nothing ↦
            rw (nothing, parse_fences_from)
              (DescribeFrom-weaken (start + 1) start stop _ (omega arith) later)
        | inr (s, found) ↦
            let (index, described) = read_fence_slot-Describes start s found in
            rw (found, parse_fences_from)
              (
                omega (arith, index),
                omega (arith, index),
                subst (λ (k : ℕ). Describes s k) (sym index) described,
                subst
                    (λ (k : ℕ).
                      DescribeFrom (k + 1) stop (parse_fences_from checksum bytes left (start + 1)))
                    (sym index) later,
              )
      ]

  -- The entries are in the order of their indices, no index twice, each index within the region, and
  -- each entry is that of a fence message in the documented layout in its slot, with the magic, the type,
  -- the checksum, and the writer, target and reason at their offsets, or is marked corrupt at a slot
  -- that holds data and no such message.
  pub parse_fence_slots_sound : DescribeFrom 0 (slot_count bytes) (parse_fence_slots checksum bytes)
  unfolding parse_fence_slots
  parse_fence_slots_sound =
      parse_fences_from_sound (slot_count bytes) 0 (slot_count bytes) (omega arith)
