-- ===== src/Block/FenceLayout.antt =====
-- The layout of a fence message, and that `validSBDHeader` asks for it.
use medik8s_system_tests.Base.{
  ℕ, ◌+◌, ◌*◌, ◌≡◌, refl, sym, ap, ◌∙◌, ◌↔◌, ◌⊎◌, inl, inr, true, Option, none, some, arith,
  Bool-cases, slice, get_or, nat_beq_iff,
}
use medik8s_system_tests.Go.Strings.{codes, text_beq_iff}
use medik8s_system_tests.Block.Bytes.{Bytes, little_endian}
use medik8s_system_tests.Block.Slices.{number_at, little_endian-field, get_or-slice, slice-front}
use medik8s_system_tests.Block.Header.{
  block_slot_size, sbd_magic, sbd_fence_msg_type, sbd_fence_msg_size, is_valid_header,
  valid_sbd_header,
}

module _ (checksum : Bytes → ℕ) (bytes : Bytes) where
  -- The byte of the region at an offset within a slot.
  abbrev pub byte_of : (slot_idx offset : ℕ) → ℕ
  byte_of i k = get_or bytes (i * block_slot_size + k) 0

  -- The slot holds a fence message in the layout that the comment above `parseSlotData` gives for
  -- all messages: the magic, the version in two bytes, the type, the writer in two bytes, the timestamp
  -- and the sequence number in eight each, the checksum of all this. Behind it stand the target in two
  -- bytes and the reason.
  abbrev pub IsFence : ℕ → Type 0
  IsFence i =
      let start = i * block_slot_size in
      (slice start (start + 8) bytes ≡ codes "SBDMSG01")
      × (byte_of i 10 ≡ 2)
      × (byte_of i 29 + 256 * (byte_of i 30 + 256 * (byte_of i 31 + 256 * byte_of i 32))
          ≡ checksum (slice start (start + 29) bytes))

  -- The message that `validSBDHeader` looks at.
  abbrev pub message : ℕ → Bytes
  message i = slice (i * block_slot_size) (i * block_slot_size + sbd_fence_msg_size) bytes

  abbrev pub fence_header : ℕ → Option Bytes
  fence_header i = valid_sbd_header checksum bytes i sbd_fence_msg_type sbd_fence_msg_size

  magic_of :
      (i : ℕ) → slice 0 8 (message i) ≡ slice (i * block_slot_size) (i * block_slot_size + 8) bytes
  magic_of i = slice-front (i * block_slot_size) sbd_fence_msg_size 8 bytes (omega arith)

  summed_of :
      (i : ℕ)
      → slice 0 29 (message i) ≡ slice (i * block_slot_size) (i * block_slot_size + 29) bytes
  summed_of i = slice-front (i * block_slot_size) sbd_fence_msg_size 29 bytes (omega arith)

  is_valid_header-IsFence :
      (i : ℕ) → (is_valid_header checksum sbd_fence_msg_type (message i) ≡ true) ↔ IsFence i
  unfolding is_valid_header
  is_valid_header-IsFence i =
      let start = i * block_slot_size in
      let m = message i in
      let sum = little_endian (slice 29 33 m) in
      let field : sum ≡ number_at 4 bytes start 29 =
        little_endian-field start sbd_fence_msg_size 29 4 bytes (omega arith) in
      let kind : get_or m 10 0 ≡ byte_of i 10 =
        get_or-slice start sbd_fence_msg_size 10 bytes 0 (omega arith) in
      let (magic_to, magic_from) = text_beq_iff (slice 0 8 m) sbd_magic in
      let (kind_to, kind_from) = nat_beq_iff (get_or m 10 0) sbd_fence_msg_type in
      let (sum_to, sum_from) = nat_beq_iff sum (checksum (slice 0 29 m)) in
      (
        (λ h. (
          sym (magic_of i) ∙ magic_to (ground (arith, h)),
          sym kind ∙ kind_to (ground (arith, h)),
          omega (arith, field, sum_to (ground (arith, h)), ap checksum (summed_of i)),
        )),
        (λ (magic, type, sums).
            let a = magic_from (magic_of i ∙ magic) in
            let b = kind_from (kind ∙ type) in
            let c = sum_from (omega (arith, field, sums, ap checksum (summed_of i))) in
            ground (arith, a, b, c)),
      )

  pub fence_header-cases :
      (i : ℕ)
      → (IsFence i × (fence_header i ≡ some (message i)))
        ⊎ ((¬ IsFence i) × (fence_header i ≡ none))
  unfolding valid_sbd_header
  fence_header-cases i =
      let (to, from) = is_valid_header-IsFence i in
      elim (Bool-cases (is_valid_header checksum sbd_fence_msg_type (message i))) [
        | inl e ↦ inl (to e, rw e refl)
        | inr e ↦ inr ((λ is. absurd (ground (arith, e, from is))), rw e refl)
      ]
