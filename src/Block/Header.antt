-- ===== src/Block/Header.antt =====
-- The slots of the heartbeat and fence regions.
use medik8s_system_tests.Base.{
  ℕ, zero, suc, ◌+◌, ◌*◌, ◌/◌, min, Bool, true, false, ◌&&◌, List, [], ◌∷◌, Option, none, some,
  length, slice, get_or, ◌==◌, nat_eq, if◌then◌else◌,
}
use medik8s_system_tests.Base.Int.{ℤ, to_int64}
use medik8s_system_tests.Go.Strings.{codes, text_eq}
use medik8s_system_tests.Block.Bytes.{Bytes, little_endian}

abbrev pub block_slot_size : ℕ
block_slot_size = 4096

abbrev pub block_max_nodes : ℕ
block_max_nodes = 255

abbrev pub sbd_magic : Bytes
sbd_magic = codes "SBDMSG01"

abbrev pub sbd_header_size : ℕ
sbd_header_size = 33

abbrev pub sbd_heartbeat_msg_type : ℕ
sbd_heartbeat_msg_type = 1

abbrev pub sbd_fence_msg_type : ℕ
sbd_fence_msg_type = 2

abbrev pub sbd_fence_msg_size : ℕ
sbd_fence_msg_size = sbd_header_size + 3

pub record SlotData : Type 0 where
  pub slot_index : ℕ
  pub node_id : ℕ
  pub timestamp : ℤ
  pub sequence : ℕ
  pub has_data : Bool

pub record FenceSlot : Type 0 where
  pub slot_index : ℕ
  pub writer_node_id : ℕ
  pub target_node_id : ℕ
  pub reason : ℕ
  pub corrupt : Bool

-- How many slots the loops visit: `slotIdx < len(data)/blockSlotSize && slotIdx < blockMaxNodes`.
unfoldable pub slot_count : Bytes → ℕ
slot_count bytes = min (length bytes / block_slot_size) block_max_nodes

module _ (checksum : Bytes → ℕ) where
  -- The test of `validSBDHeader` on the bytes of a message.
  unfoldable pub is_valid_header : (msg_type : ℕ) → Bytes → Bool
  is_valid_header msg_type slot_bytes =
      (slice 0 8 slot_bytes == sbd_magic && get_or slot_bytes 10 0 == msg_type)
      && little_endian (slice 29 33 slot_bytes) == checksum (slice 0 29 slot_bytes)

  unfoldable pub valid_sbd_header : Bytes → (slot_idx msg_type msg_size : ℕ) → Option Bytes
  valid_sbd_header bytes slot_idx msg_type msg_size =
      let start = slot_idx * block_slot_size in
      let slot_bytes = slice start (start + msg_size) bytes in
      if is_valid_header msg_type slot_bytes then some slot_bytes else none

  -- The entry that `parseSlotData` makes of a slot with a valid heartbeat header.
  unfoldable pub heartbeat_slot : ℕ → Bytes → SlotData
  heartbeat_slot slot_idx slot_bytes = record {
    slot_index = slot_idx;
    node_id = little_endian (slice 11 13 slot_bytes);
    timestamp = to_int64 (little_endian (slice 13 21 slot_bytes));
    sequence = little_endian (slice 21 29 slot_bytes);
    has_data = true;
  }

  -- The loop of `parseSlotData`, over the number of slots that are left.
  unfoldable pub parse_slots_from : Bytes → (left slot_idx : ℕ) → List SlotData
  parse_slots_from bytes zero slot_idx = []
  parse_slots_from bytes (suc left) slot_idx =
      let later = parse_slots_from bytes left (slot_idx + 1) in
      elim (valid_sbd_header bytes slot_idx sbd_heartbeat_msg_type sbd_header_size) [
        | none ↦ later
        | some slot_bytes ↦ heartbeat_slot slot_idx slot_bytes ∷ later
      ]

  unfoldable pub parse_slot_data : Bytes → List SlotData
  unfolding parse_slots_from
  parse_slot_data bytes = parse_slots_from bytes (slot_count bytes) 0

-- `slotRegionIsZero`
unfoldable pub is_zero : Bytes → Bool
is_zero [] = true
is_zero (b ∷ bytes) = b == 0 && is_zero bytes

unfoldable pub slot_region_is_zero : Bytes → ℕ → Bool
unfolding is_zero
slot_region_is_zero bytes slot_idx =
    let start = slot_idx * block_slot_size in
    is_zero (slice start (min (start + block_slot_size) (length bytes)) bytes)

module _ (checksum : Bytes → ℕ) where
  unfoldable pub fence_slot : ℕ → Bytes → FenceSlot
  fence_slot slot_idx slot_bytes = record {
    slot_index = slot_idx;
    writer_node_id = little_endian (slice 11 13 slot_bytes);
    target_node_id = little_endian (slice 33 35 slot_bytes);
    reason = get_or slot_bytes 35 0;
    corrupt = false;
  }

  abbrev pub corrupt_slot : ℕ → FenceSlot
  corrupt_slot slot_idx = record {
    slot_index = slot_idx;
    writer_node_id = 0;
    target_node_id = 0;
    reason = 0;
    corrupt = true;
  }

  -- What the loop of `parseFenceSlots` puts into its map for one slot.
  unfoldable pub read_fence_slot : Bytes → ℕ → Option FenceSlot
  read_fence_slot bytes slot_idx =
      elim (valid_sbd_header checksum bytes slot_idx sbd_fence_msg_type sbd_fence_msg_size) [
        | none ↦ if slot_region_is_zero bytes slot_idx then none else some (corrupt_slot slot_idx)
        | some slot_bytes ↦ some (fence_slot slot_idx slot_bytes)
      ]

  -- The map of `parseFenceSlots`, as the list of its values in the order of their keys.
  unfoldable pub parse_fences_from : Bytes → (left slot_idx : ℕ) → List FenceSlot
  parse_fences_from bytes zero slot_idx = []
  parse_fences_from bytes (suc left) slot_idx =
      let later = parse_fences_from bytes left (slot_idx + 1) in
      elim (read_fence_slot bytes slot_idx) [ none ↦ later | some slot ↦ slot ∷ later ]

  unfoldable pub parse_fence_slots : Bytes → List FenceSlot
  unfolding parse_fences_from
  parse_fence_slots bytes = parse_fences_from bytes (slot_count bytes) 0
