-- ===== src/Block/Tests.antt =====
-- Runs of the device reader on concrete regions.
use medik8s_system_tests.Base.{
  ℕ, ◌-◌, ◌*◌, ◌^◌, ◌<◌, ◌≡◌, refl, ◌↔◌, inl, true, false, List, [], ◌∷◌, ◌++◌, Option, none, some,
  arith, replicate, get_or, slice, if◌then◌else◌, ◌==◌, nat_eq, Any,
}
use medik8s_system_tests.Base.Int.{pos}
use medik8s_system_tests.Go.Strings.{codes}
use medik8s_system_tests.Block.Bytes.{Bytes, little_endian}
use medik8s_system_tests.Block.Header.{
  SlotData, slot_count, slot_region_is_zero, parse_slot_data, parse_fence_slots, read_fence_slot,
  valid_sbd_header, is_valid_header, fence_slot,
}
use medik8s_system_tests.Block.RoundTrip.{
  Heartbeat, write_region, expected, parse_slot_data-write_region,
}
use medik8s_system_tests.Block.Fences.{
  DescribeFrom, parse_fence_slots_complete, parse_fence_slots_sound,
}
use medik8s_system_tests.Block.Superblock.{Layout}
use medik8s_system_tests.Block.NodeMap.{
  NodeMap, ok, Device, node_map_magic, read_node_map, read_node_map_once, parse_node_map_buffer,
  parse_node_map_payload,
}
use medik8s_system_tests.Block.NodeMap.Newest.{Reads, IsNewest}
use medik8s_system_tests.Block.NodeMap.Retry.{read_node_map-IsNewest}
use medik8s_system_tests.Block.Heartbeats.{
  Round, consistent, validate_slot_data_consistency, validate_sequence_numbers, all_advanced,
  collect, add_slot, add_sample, check_advanced,
}
use medik8s_system_tests.Block.Heartbeats.Variance.{
  IsConsistent, validate_slot_data_consistency-IsConsistent,
}
use medik8s_system_tests.Block.Heartbeats.Samples.{Seen}
use medik8s_system_tests.Block.Heartbeats.Advance.{Moved, validate_sequence_numbers-Moved}

abbrev no_checksum : Bytes → ℕ
no_checksum bytes = 0

abbrev buffer : ℕ → Bytes
buffer generation = (generation ∷ replicate 23 0) ++ (6 ∷ replicate 65511 0)

abbrev node_map : ℕ → NodeMap
node_map generation = record {
  magic = node_map_magic;
  version = 1;
  entries = [];
  node_usage = [];
  generation = generation;
}

abbrev decode : Bytes → Option NodeMap
decode bytes = some (node_map 0)

abbrev device : Device
device reads offset size = if offset == 4096 then some (buffer 3) else some (buffer 2)

node_map_found : read_node_map no_checksum decode device ≡ ok (node_map 3)
unfolding read_node_map parse_node_map_payload parse_node_map_buffer replicate little_endian slice
    read_node_map_once
node_map_found = refl

read_node_map-IsNewest_example :
    (k : ℕ) × (k < 5)
    × (a b : Bytes) × (g : ℕ) × (Reads no_checksum device (2 * k) a b
        × IsNewest no_checksum decode (node_map 3) g a b)
read_node_map-IsNewest_example =
    read_node_map-IsNewest no_checksum decode device (node_map 3) node_map_found

attempt_found : read_node_map_once no_checksum decode device 2 ≡ ok (node_map 3)
unfolding read_node_map_once parse_node_map_payload parse_node_map_buffer replicate little_endian
    slice
attempt_found = refl

abbrev heartbeats : List (Option Heartbeat)
heartbeats = none ∷ some (record { version = 1; node_id = 2; timestamp = 700; sequence = 300 }) ∷ []

no_checksum-small : (bytes : Bytes) → no_checksum bytes < 2 ^ 32
no_checksum-small bytes = omega arith

parse_slot_data-write_region_example :
    parse_slot_data no_checksum (write_region no_checksum heartbeats)
    ≡ expected no_checksum no_checksum-small 0 heartbeats
parse_slot_data-write_region_example =
    parse_slot_data-write_region no_checksum no_checksum-small heartbeats (omega arith) (
      record {
        version = omega arith;
        node_id = omega arith;
        timestamp = omega arith;
        sequence = omega arith;
      },
      tt,
    )

-- A fence region of one slot, which holds something that is no fence message.
abbrev damaged : Bytes
damaged = replicate 4096 7

damaged-count : slot_count damaged ≡ 1
unfolding slot_count replicate
damaged-count = refl

damaged-written : slot_region_is_zero damaged 0 ≡ false
unfolding slot_region_is_zero replicate slice
damaged-written = refl

parse_fence_slots_complete_example :
    Any (λ s. s.slot_index ≡ 0) (parse_fence_slots no_checksum damaged)
parse_fence_slots_complete_example =
    parse_fence_slots_complete no_checksum damaged 0 (omega (arith, damaged-count)) damaged-written

-- A fence message of writer 1 against target 2 for reason 3, and a damaged slot behind it.
abbrev fenced : Bytes
fenced =
    codes "SBDMSG01"
    ++ (1 ∷ 0 ∷ 2 ∷ 1 ∷ 0 ∷ replicate 20 0 ++ (2 ∷ 0 ∷ 3 ∷ replicate 4060 0 ++ damaged))

fenced-slots :
    parse_fence_slots no_checksum fenced
    ≡ record { slot_index = 0; writer_node_id = 1; target_node_id = 2; reason = 3; corrupt = false }
      ∷ record {
        slot_index = 1;
        writer_node_id = 0;
        target_node_id = 0;
        reason = 0;
        corrupt = true;
      }
      ∷ []
unfolding parse_fence_slots slot_count read_fence_slot valid_sbd_header is_valid_header
    slot_region_is_zero fence_slot little_endian slice replicate get_or
fenced-slots = refl

parse_fence_slots_sound_example :
    DescribeFrom no_checksum fenced 0 (slot_count fenced) (parse_fence_slots no_checksum fenced)
parse_fence_slots_sound_example = parse_fence_slots_sound no_checksum fenced

abbrev layout : Layout
layout = record {
  m0 = 83;
  m1 = 66;
  m2 = 82;
  m3 = 66;
  m4 = 76;
  m5 = 75;
  version = 1;
  r0 = 4096;
  r1 = 65536;
  r2 = 69632;
  r3 = 65536;
  r4 = 135168;
  r5 = 1044480;
  r6 = 1179648;
  r7 = 1044480;
  flags = 0;
}

abbrev slot : (node sequence : ℕ) → SlotData
slot node sequence = record {
  slot_index = node - 1;
  node_id = node;
  timestamp = pos 0;
  sequence = sequence;
  has_data = true;
}

validate_slot_data_consistency-IsConsistent_example :
    (validate_slot_data_consistency (("a", slot 1 4 ∷ []) ∷ ("b", []) ∷ []) ≡ consistent)
    ↔ IsConsistent (("a", slot 1 4 ∷ []) ∷ ("b", []) ∷ [])
validate_slot_data_consistency-IsConsistent_example =
    validate_slot_data_consistency-IsConsistent "a" (slot 1 4 ∷ []) (("b", []) ∷ [])

abbrev rounds : List Round
rounds = (("a", slot 1 4 ∷ []) ∷ []) ∷ (("a", slot 1 6 ∷ []) ∷ []) ∷ []

rounds-advance : validate_sequence_numbers rounds 1 ≡ all_advanced
unfolding validate_sequence_numbers collect add_slot add_sample check_advanced
rounds-advance = refl

validate_sequence_numbers-Moved_example : Moved (λ n. Seen 1 n rounds) 4
validate_sequence_numbers-Moved_example =
    validate_sequence_numbers-Moved rounds 1 1 4 rounds-advance (inl (inl (inl (refl, refl, refl))))
