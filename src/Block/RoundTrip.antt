-- ===== src/Block/RoundTrip.antt =====
-- What is read back from a heartbeat region that was written in the layout that the comment above
-- `parseSlotData` gives.
use medik8s_system_tests.Base.{
  ℕ, suc, ◌+◌, ◌-◌, ◌*◌, ◌/◌, ◌<◌, ◌≤◌, ◌^◌, min, ◌≡◌, refl, ap₂, ◌∙◌, true, List, [], ◌∷◌, ◌++◌,
  append_assoc, Option, none, some, arith, length, length-append, slice, replicate, replicate-add,
  drop-append, take-append, length-replicate, get_or, nat_eq, nat_beq_iff,
}
use medik8s_system_tests.Base.Int.{to_int64}
use medik8s_system_tests.Block.Bytes.{
  Bytes, little_endian, put_little_endian, little_endian-put_little_endian, FitsIn-two, FitsIn-four,
  FitsIn-eight,
}
use medik8s_system_tests.Block.Header.{
  block_slot_size, block_max_nodes, sbd_magic, sbd_heartbeat_msg_type, sbd_header_size, SlotData,
  slot_count, is_valid_header, valid_sbd_header, heartbeat_slot, parse_slots_from, parse_slot_data,
}

-- A heartbeat message; the timestamp is given by its bits.
pub record Heartbeat : Type 0 where
  pub version : ℕ
  pub node_id : ℕ
  pub timestamp : ℕ
  pub sequence : ℕ

-- The fields fit their places.
pub record InRange (hb : Heartbeat) : Type 0 where
  pub version : hb.version < 2 ^ 16
  pub node_id : hb.node_id < 2 ^ 16
  pub timestamp : hb.timestamp < 2 ^ 64
  pub sequence : hb.sequence < 2 ^ 64

slice-append {ℓ} :
    {A : Type ℓ} (pre mid rest : List A) (from to : ℕ)
    → length pre ≡ from
    → length mid ≡ to - from
    → slice from to (pre ++ (mid ++ rest)) ≡ mid
unfolding slice
slice-append pre mid rest from to e f =
    rw (← f, ← e, drop-append pre (mid ++ rest)) (take-append mid rest)

-- The bytes of a message that its checksum covers.
unfoldable pub marshal_head : (msg_type : ℕ) → Heartbeat → Bytes
unfolding put_little_endian
marshal_head msg_type hb =
    sbd_magic
    ++ (put_little_endian 2 hb.version
        ++ (msg_type
            ∷ (put_little_endian 2 hb.node_id
                ++ (put_little_endian 8 hb.timestamp ++ put_little_endian 8 hb.sequence))))

module _ (checksum : Bytes → ℕ) where
  unfoldable pub marshal : (msg_type : ℕ) → Heartbeat → Bytes
  unfolding marshal_head
  marshal msg_type hb =
      marshal_head msg_type hb ++ put_little_endian 4 (checksum (marshal_head msg_type hb))

  -- A slot: a message and zeros, or zeros alone.
  unfoldable pub write_slot : Option Heartbeat → Bytes
  write_slot none = replicate block_slot_size 0
  write_slot (some hb) =
      marshal sbd_heartbeat_msg_type hb ++ replicate (block_slot_size - sbd_header_size) 0

  unfoldable pub write_region : List (Option Heartbeat) → Bytes
  write_region [] = []
  write_region (slot ∷ slots) = write_slot slot ++ write_region slots

  length-marshal : (hb : Heartbeat) → length (marshal sbd_heartbeat_msg_type hb) ≡ sbd_header_size
  unfolding marshal
  length-marshal hb = refl

  length-write_slot : (slot : Option Heartbeat) → length (write_slot slot) ≡ block_slot_size
  unfolding write_slot
  length-write_slot none = length-replicate block_slot_size 0
  length-write_slot (some hb) =
      length-append (marshal sbd_heartbeat_msg_type hb)
        (replicate (block_slot_size - sbd_header_size) 0)
      ∙ omega
          (arith, length-marshal hb, length-replicate {A = ℕ} (block_slot_size - sbd_header_size) 0)

  length-write_region :
      (slots : List (Option Heartbeat))
      → length (write_region slots) ≡ block_slot_size * length slots
  unfolding write_region
  length-write_region [] = omega arith
  length-write_region (slot ∷ slots) = omega (
    arith,
    length-append (write_slot slot) (write_region slots),
    length-write_slot slot,
    length-write_region slots,
  )

  module _ (is_uint32 : (bytes : Bytes) → checksum bytes < 2 ^ 32) where
    valid-marshal :
        (hb : Heartbeat)
        → is_valid_header checksum sbd_heartbeat_msg_type (marshal sbd_heartbeat_msg_type hb) ≡ true
    unfolding is_valid_header marshal slice get_or
    valid-marshal hb =
        let sum = checksum (marshal_head sbd_heartbeat_msg_type hb) in
        (nat_beq_iff (little_endian (put_little_endian 4 sum)) sum).1
          (little_endian-put_little_endian 4 sum (FitsIn-four sum (is_uint32 _)))

    -- What is read back, slot by slot.
    abbrev pub expected : ℕ → List (Option Heartbeat) → List SlotData
    expected i [] = []
    expected i (none ∷ slots) = expected (i + 1) slots
    expected i (some hb ∷ slots) =
        record {
          slot_index = i;
          node_id = hb.node_id;
          timestamp = to_int64 hb.timestamp;
          sequence = hb.sequence;
          has_data = true;
        }
        ∷ expected (i + 1) slots

    abbrev pub AllInRange : List (Option Heartbeat) → Type 0
    AllInRange [] = Unit
    AllInRange (none ∷ slots) = AllInRange slots
    AllInRange (some hb ∷ slots) = InRange hb × AllInRange slots

    slot_bytes :
        (pre msg pad rest : Bytes) (i size : ℕ)
        → length pre ≡ i * block_slot_size
        → length msg ≡ size
        → slice (i * block_slot_size) (i * block_slot_size + size) (pre ++ ((msg ++ pad) ++ rest))
          ≡ msg
    slot_bytes pre msg pad rest i size e f = rw (append_assoc msg pad rest) (
        slice-append pre msg (pad ++ rest) (i * block_slot_size) (i * block_slot_size + size) e
          (omega (arith, f)))

    valid_sbd_header-write_slot :
        (hb : Heartbeat) (pre rest : Bytes) (i : ℕ)
        → length pre ≡ i * block_slot_size
        → valid_sbd_header checksum
            (pre ++ (write_slot (some hb) ++ rest))
            i
            sbd_heartbeat_msg_type
            sbd_header_size
          ≡ some (marshal sbd_heartbeat_msg_type hb)
    unfolding valid_sbd_header write_slot
    valid_sbd_header-write_slot hb pre rest i e =
        rw
          (
            slot_bytes pre (marshal sbd_heartbeat_msg_type hb)
                (replicate (block_slot_size - sbd_header_size) 0) rest i sbd_header_size e
                (length-marshal hb),
            valid-marshal hb,
          )
          refl

    valid_sbd_header-empty :
        (pre rest : Bytes) (i : ℕ)
        → length pre ≡ i * block_slot_size
        → valid_sbd_header checksum
            (pre ++ (write_slot none ++ rest))
            i
            sbd_heartbeat_msg_type
            sbd_header_size
          ≡ none
    unfolding valid_sbd_header write_slot
    valid_sbd_header-empty pre rest i e =
        let zeros : Bytes = replicate sbd_header_size 0 in
        let pad : Bytes = replicate (block_slot_size - sbd_header_size) 0 in
        rw
          (
            replicate-add {A = ℕ} sbd_header_size (block_slot_size - sbd_header_size) 0,
            slot_bytes pre zeros pad rest i sbd_header_size e (length-replicate sbd_header_size 0),
          )
          (unfold is_valid_header slice replicate in refl)

    heartbeat_slot-marshal :
        (hb : Heartbeat) (i : ℕ)
        → InRange hb
        → heartbeat_slot checksum i (marshal sbd_heartbeat_msg_type hb) ≡ record {
          slot_index = i;
          node_id = hb.node_id;
          timestamp = to_int64 hb.timestamp;
          sequence = hb.sequence;
          has_data = true;
        }
    unfolding heartbeat_slot marshal slice
    heartbeat_slot-marshal hb i fits = λ k. record {
      slot_index = i;
      node_id = little_endian-put_little_endian 2 hb.node_id (FitsIn-two hb.node_id fits.node_id) k;
      timestamp = to_int64 (
          little_endian-put_little_endian 8 hb.timestamp (FitsIn-eight hb.timestamp fits.timestamp)
            k);
      sequence =
          little_endian-put_little_endian 8 hb.sequence (FitsIn-eight hb.sequence fits.sequence) k;
      has_data = true;
    }

    -- One round of the loop at the slot `i`, which `pre` stands before.
    parse-write_slot :
        (slot : Option Heartbeat) (slots : List (Option Heartbeat)) (pre rest : Bytes) (left i : ℕ)
        → length pre ≡ i * block_slot_size
        → AllInRange (slot ∷ slots)
        → parse_slots_from checksum (pre ++ (write_slot slot ++ rest)) left (i + 1)
          ≡ expected (i + 1) slots
        → parse_slots_from checksum (pre ++ (write_slot slot ++ rest)) (suc left) i
          ≡ expected i (slot ∷ slots)
    unfolding parse_slots_from
    parse-write_slot none slots pre rest left i e fits later =
        rw (valid_sbd_header-empty pre rest i e, parse_slots_from) later
    parse-write_slot (some hb) slots pre rest left i e fits later =
        rw (valid_sbd_header-write_slot hb pre rest i e, parse_slots_from)
          (ap₂ ◌∷◌ (heartbeat_slot-marshal hb i fits.0) later)

    parse-write_region :
        (slots : List (Option Heartbeat)) (pre : Bytes) (i : ℕ)
        → length pre ≡ i * block_slot_size
        → AllInRange slots
        → parse_slots_from checksum (pre ++ write_region slots) (length slots) i ≡ expected i slots
    unfolding write_region
    parse-write_region [] pre i e fits = unfold parse_slots_from in refl
    parse-write_region (slot ∷ slots) pre i e fits =
        parse-write_slot slot slots pre (write_region slots) (length slots) i e fits (
          rw (← append_assoc pre (write_slot slot) (write_region slots)) (
            parse-write_region slots (pre ++ write_slot slot) (i + 1)
              (omega (arith, e, length-append pre (write_slot slot), length-write_slot slot))
              (rest_in_range slot fits)))
      where
        rest_in_range : (s : Option Heartbeat) → AllInRange (s ∷ slots) → AllInRange slots
        rest_in_range none h = h
        rest_in_range (some hb) h = h.1

    -- A heartbeat region of at most 255 slots of 4096 bytes, each all zero or a heartbeat message in
    -- the documented layout with its checksum, is read back as written: the written slots in order,
    -- each with its index, node id, sequence and timestamp, and nothing for the empty ones.
    pub parse_slot_data-write_region :
        (slots : List (Option Heartbeat))
        → length slots ≤ block_max_nodes
        → AllInRange slots
        → parse_slot_data checksum (write_region slots) ≡ expected 0 slots
    unfolding parse_slot_data slot_count
    parse_slot_data-write_region slots small fits =
        let count : min (length (write_region slots) / block_slot_size) block_max_nodes
            ≡ length slots =
          omega (arith, length-write_region slots) in
        rw count (parse-write_region slots [] 0 (omega arith) fits)
