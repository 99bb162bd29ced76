-- ===== src/Block/Superblock.antt =====
-- `parseSuperblock`, and what it reads from a superblock that was written in the layout given above
-- the constants of block_storage_rbd_helpers.go.
use medik8s_system_tests.Base.{
  ℕ, ◌+◌, ◌*◌, ◌<◌, ◌^◌, ◌≡◌, ap, false, [], ◌∷◌, ◌++◌, Option, none, some, arith, length, slice,
  ltb, if◌then◌else◌,
}
use medik8s_system_tests.Base.Int.{ℤ, to_int64}
use medik8s_system_tests.Block.Bytes.{
  Bytes, little_endian, put_little_endian, little_endian-put_little_endian, FitsIn-two, FitsIn-four,
  FitsIn-eight,
}

abbrev pub superblock_data_size : ℕ
superblock_data_size = 76

abbrev pub superblock_total_size : ℕ
superblock_total_size = 80

pub record Superblock : Type 0 where
  pub magic : Bytes
  pub version : ℕ
  pub node_map_a_offset : ℤ
  pub node_map_a_length : ℤ
  pub node_map_b_offset : ℤ
  pub node_map_b_length : ℤ
  pub heartbeat_reg_offset : ℤ
  pub heartbeat_reg_length : ℤ
  pub fence_reg_offset : ℤ
  pub fence_reg_length : ℤ
  pub flags : ℕ
  pub crc : ℕ
  pub computed_crc : ℕ

-- `fields[idx]`
unfoldable pub region_field : Bytes → ℕ → ℤ
region_field bytes idx =
    let start = 8 + idx * 8 in to_int64 (little_endian (slice start (start + 8) bytes))

module _ (checksum : Bytes → ℕ) where
  -- `none` is the error of a short read.
  unfoldable pub parse_superblock : Bytes → Option Superblock
  unfolding region_field
  parse_superblock bytes =
      if ltb (length bytes) superblock_total_size
      then none
      else some (record {
        magic = slice 0 6 bytes;
        version = little_endian (slice 6 8 bytes);
        node_map_a_offset = region_field bytes 0;
        node_map_a_length = region_field bytes 1;
        node_map_b_offset = region_field bytes 2;
        node_map_b_length = region_field bytes 3;
        heartbeat_reg_offset = region_field bytes 4;
        heartbeat_reg_length = region_field bytes 5;
        fence_reg_offset = region_field bytes 6;
        fence_reg_length = region_field bytes 7;
        flags = little_endian (slice 72 76 bytes);
        crc = little_endian (slice 76 80 bytes);
        computed_crc = checksum (slice 0 superblock_data_size bytes);
      })

-- The fields of a superblock on the device; a region field is given by its bits.
pub record Layout : Type 0 where
  pub m0 : ℕ
  pub m1 : ℕ
  pub m2 : ℕ
  pub m3 : ℕ
  pub m4 : ℕ
  pub m5 : ℕ
  pub version : ℕ
  pub r0 : ℕ
  pub r1 : ℕ
  pub r2 : ℕ
  pub r3 : ℕ
  pub r4 : ℕ
  pub r5 : ℕ
  pub r6 : ℕ
  pub r7 : ℕ
  pub flags : ℕ

pub record InRange (l : Layout) : Type 0 where
  pub version : l.version < 2 ^ 16
  pub r0 : l.r0 < 2 ^ 64
  pub r1 : l.r1 < 2 ^ 64
  pub r2 : l.r2 < 2 ^ 64
  pub r3 : l.r3 < 2 ^ 64
  pub r4 : l.r4 < 2 ^ 64
  pub r5 : l.r5 < 2 ^ 64
  pub r6 : l.r6 < 2 ^ 64
  pub r7 : l.r7 < 2 ^ 64
  pub flags : l.flags < 2 ^ 32

abbrev pub magic_of : Layout → Bytes
magic_of l = l.m0 ∷ l.m1 ∷ l.m2 ∷ l.m3 ∷ l.m4 ∷ l.m5 ∷ []

-- The bytes that the checksum covers.
unfoldable pub marshal_fields : Layout → Bytes
unfolding put_little_endian
marshal_fields l =
    magic_of l
    ++ (put_little_endian 2 l.version
        ++ (put_little_endian 8 l.r0
            ++ (put_little_endian 8 l.r1
                ++ (put_little_endian 8 l.r2
                    ++ (put_little_endian 8 l.r3
                        ++ (put_little_endian 8 l.r4
                            ++ (put_little_endian 8 l.r5
                                ++ (put_little_endian 8 l.r6
                                    ++ (put_little_endian 8 l.r7
                                        ++ put_little_endian 4 l.flags)))))))))

-- The superblock with the given checksum, at the start of what was read.
unfoldable pub marshal_superblock : Layout → (crc : ℕ) → (rest : Bytes) → Bytes
unfolding marshal_fields
marshal_superblock l crc rest = marshal_fields l ++ (put_little_endian 4 crc ++ rest)

read_eight : (n : ℕ) → n < 2 ^ 64 → to_int64 (little_endian (put_little_endian 8 n)) ≡ to_int64 n
read_eight n h = ap to_int64 (little_endian-put_little_endian 8 n (FitsIn-eight n h))

long_enough :
    (l : Layout) (crc : ℕ) (rest : Bytes)
    → ltb (length (marshal_superblock l crc rest)) superblock_total_size ≡ false
unfolding marshal_superblock
long_enough l crc rest = ground arith

-- What was written is read back field by field, whatever follows it and whether or not its checksum
-- is right: the stored checksum and the one computed over the 76 bytes before it are both reported.
pub parse_superblock-marshal :
    (checksum : Bytes → ℕ) (l : Layout) (crc : ℕ) (rest : Bytes)
    → InRange l
    → crc < 2 ^ 32
    → parse_superblock checksum (marshal_superblock l crc rest)
      ≡ some (record {
        magic = magic_of l;
        version = l.version;
        node_map_a_offset = to_int64 l.r0;
        node_map_a_length = to_int64 l.r1;
        node_map_b_offset = to_int64 l.r2;
        node_map_b_length = to_int64 l.r3;
        heartbeat_reg_offset = to_int64 l.r4;
        heartbeat_reg_length = to_int64 l.r5;
        fence_reg_offset = to_int64 l.r6;
        fence_reg_length = to_int64 l.r7;
        flags = l.flags;
        crc = crc;
        computed_crc = checksum (marshal_fields l);
      })
unfolding parse_superblock
parse_superblock-marshal checksum l crc rest fits small = rw (long_enough l crc rest) (
    unfold marshal_superblock slice in
    λ k. some (record {
      magic = magic_of l;
      version = little_endian-put_little_endian 2 l.version (FitsIn-two l.version fits.version) k;
      node_map_a_offset = read_eight l.r0 fits.r0 k;
      node_map_a_length = read_eight l.r1 fits.r1 k;
      node_map_b_offset = read_eight l.r2 fits.r2 k;
      node_map_b_length = read_eight l.r3 fits.r3 k;
      heartbeat_reg_offset = read_eight l.r4 fits.r4 k;
      heartbeat_reg_length = read_eight l.r5 fits.r5 k;
      fence_reg_offset = read_eight l.r6 fits.r6 k;
      fence_reg_length = read_eight l.r7 fits.r7 k;
      flags = little_endian-put_little_endian 4 l.flags (FitsIn-four l.flags fits.flags) k;
      crc = little_endian-put_little_endian 4 crc (FitsIn-four crc small) k;
      computed_crc = checksum (marshal_fields l);
    }))
