-- ===== src/Block/NodeMap.antt =====
-- The node map: two buffers that the agents write in turn, each with a generation and a checksum.
-- `readDeviceRegionFromPod` runs `dd` in a pod: a device is any function from the number of reads made
-- so far, the offset and the size to what the read returns. `json.Unmarshal` is a parameter.
pub mod Newest
pub mod Retry
use medik8s_system_tests.Base.{
  ℕ, zero, suc, ◌+◌, ◌-◌, ◌*◌, ◌≤◌, ◌<◌, ◌≡◌, refl, ◌⊎◌, inl, inr, Bool, true, false, not, ◌||◌,
  String, List, [], ◌∷◌, Option, none, some, arith, length, slice, drop, take, All, Any, Bool-cases,
  ltb, ◌==◌, nat_eq, if◌then◌else◌,
}
use medik8s_system_tests.Go.Strings.{codes, text_eq}
use medik8s_system_tests.Block.Bytes.{Bytes, little_endian}
use medik8s_system_tests.Block.Header.{block_slot_size}

abbrev pub node_map_a_block : ℕ
node_map_a_block = 1

abbrev pub node_map_b_block : ℕ
node_map_b_block = 17

abbrev pub node_map_region_size : ℕ
node_map_region_size = 16 * block_slot_size

abbrev pub node_map_crc_offset : ℕ
node_map_crc_offset = node_map_region_size - 4

abbrev pub node_map_payload_len_offset : ℕ
node_map_payload_len_offset = 24

abbrev pub node_map_payload_offset : ℕ
node_map_payload_offset = 28

abbrev pub node_map_json_crc_size : ℕ
node_map_json_crc_size = 4

abbrev pub node_map_magic : Bytes
node_map_magic = codes "SBDNMAP1"

abbrev pub read_attempts : ℕ
read_attempts = 5

pub record NodeMapEntry : Type 0 where
  pub node_name : String
  pub node_id : ℕ

pub record NodeMap : Type 0 where
  pub magic : Bytes
  pub version : ℕ
  pub entries : List (String × NodeMapEntry)
  pub node_usage : List (String × String)
  pub generation : ℕ

-- The errors, in place of their texts.
pub data Fault : Type 0 where
  too_short envelope_crc unused payload_length : Fault
  read_failed no_valid_buffer json_crc decode_failed bad_magic : Fault

pub data Result (A : Type 0) : Type 0 where
  ok : A → Result A
  fail : Fault → Result A

abbrev pub Device : Type 0
Device = (reads offset size : ℕ) → Option Bytes

abbrev pub offsets : List ℕ
offsets = (node_map_a_block * block_slot_size) ∷ (node_map_b_block * block_slot_size) ∷ []

-- `bestGen` and `bestPayload`; at first the generation 0 and no payload.
abbrev pub Best : Type 0
Best = ℕ × Option Bytes

unfoldable pub take_buffer : Best → Result (ℕ × Bytes) → Best
take_buffer best (fail e) = best
take_buffer best (ok (generation, payload)) =
    if ltb best.0 generation then (generation, some payload) else best

-- `nm.Generation = bestGen`
unfoldable pub stamp : ℕ → Result NodeMap → Result NodeMap
stamp generation (fail e) = fail e
stamp generation (ok node_map) = ok (record node_map { generation = generation })

module _ (checksum : Bytes → ℕ) where
  -- The generation and the payload of a buffer.
  unfoldable pub parse_node_map_buffer : Bytes → Result (ℕ × Bytes)
  parse_node_map_buffer raw =
      let generation = little_endian (slice 0 8 raw) in
      let stored_crc = little_endian (slice node_map_crc_offset (node_map_crc_offset + 4) raw) in
      let payload_len =
        little_endian (slice node_map_payload_len_offset (node_map_payload_len_offset + 4) raw) in
      if ltb (length raw) node_map_region_size
      then fail too_short
      else if not (checksum (slice 0 node_map_crc_offset raw) == stored_crc)
      then fail envelope_crc
      else if generation == 0
      then fail unused
      else if ltb payload_len node_map_json_crc_size
          || ltb node_map_crc_offset (node_map_payload_offset + payload_len)
      then fail payload_length
      else ok
          (generation, slice node_map_payload_offset (node_map_payload_offset + payload_len) raw)

  unfoldable pub parse_node_map_payload : (decode : Bytes → Option NodeMap) → Bytes → Result NodeMap
  parse_node_map_payload decode payload =
      let json_bytes = drop node_map_json_crc_size payload in
      let stored_crc = little_endian (take node_map_json_crc_size payload) in
      if not (checksum json_bytes == stored_crc) then fail json_crc else elim (decode json_bytes) [
        | none ↦ fail decode_failed
        | some node_map ↦ if node_map.magic == node_map_magic then ok node_map else fail bad_magic
      ]

  -- The loop over the two buffers; the number of reads made is passed on.
  unfoldable pub scan_buffers : Device → List ℕ → ℕ → Best → Result Best
  unfolding take_buffer
  scan_buffers device [] reads best = ok best
  scan_buffers device (offset ∷ offsets) reads best =
      elim (device reads offset node_map_region_size) [
        | none ↦ fail read_failed
        | some raw ↦
            scan_buffers device offsets (reads + 1) (take_buffer best (parse_node_map_buffer raw))
      ]

  unfoldable pub finish_node_map : (decode : Bytes → Option NodeMap) → Result Best → Result NodeMap
  unfolding stamp
  finish_node_map decode (fail e) = fail e
  finish_node_map decode (ok (generation, none)) = fail no_valid_buffer
  finish_node_map decode (ok (generation, some payload)) =
      stamp generation (parse_node_map_payload decode payload)

  unfoldable pub read_node_map_once :
      (decode : Bytes → Option NodeMap) → Device → ℕ → Result NodeMap
  unfolding scan_buffers finish_node_map
  read_node_map_once decode device reads =
      finish_node_map decode (scan_buffers device offsets reads (0, none))

  -- `readNodeMapFromPod`: the first attempt that succeeds, or the last error. An attempt makes at most
  -- two reads; the device's answers may differ from one attempt to the next.
  unfoldable pub read_node_map_from :
      (decode : Bytes → Option NodeMap) → Device → (left reads : ℕ) → Fault → Result NodeMap
  read_node_map_from decode device zero reads last = fail last
  read_node_map_from decode device (suc left) reads last =
      elim (read_node_map_once decode device reads) [
        | ok node_map ↦ ok node_map
        | fail e ↦ read_node_map_from decode device left (reads + 2) e
      ]

  unfoldable pub read_node_map : (decode : Bytes → Option NodeMap) → Device → Result NodeMap
  unfolding read_node_map_from
  read_node_map decode device = read_node_map_from decode device read_attempts 0 no_valid_buffer
