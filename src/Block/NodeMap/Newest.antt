-- ===== src/Block/NodeMap/Newest.antt =====
-- The node map that is returned is that of the newest valid buffer.
use medik8s_system_tests.Base.{
  ℕ, ◌+◌, ◌*◌, ◌≤◌, ◌≡◌, refl, ap, sym, ◌∙◌, ◌⊎◌, inl, inr, Option, none, some, arith, Bool-cases,
  Option-cases, ltb,
}
use medik8s_system_tests.Block.Bytes.{Bytes}
use medik8s_system_tests.Block.NodeMap.{
  NodeMap, Fault, Result, ok, fail, Device, node_map_region_size, parse_node_map_buffer,
  parse_node_map_payload, Best, take_buffer, scan_buffers, stamp, finish_node_map, offsets,
  read_node_map_once, read_failed,
}

module _ (checksum : Bytes → ℕ) where
  -- A buffer is either invalid, or no newer than the generation.
  abbrev pub NoNewer : ℕ → Bytes → Type 0
  NoNewer generation raw =
      ((e : Fault) × (parse_node_map_buffer checksum raw ≡ fail e))
      ⊎ ((g : ℕ) × (payload : Bytes) × (parse_node_map_buffer checksum raw ≡ ok (g, payload))
          × (g ≤ generation))

  -- The buffer is valid, with this generation and this payload.
  abbrev pub Holds : ℕ → Bytes → Bytes → Type 0
  Holds generation payload raw = parse_node_map_buffer checksum raw ≡ ok (generation, payload)

  -- What the two reads of an attempt returned.
  abbrev pub Reads : Device → ℕ → Bytes → Bytes → Type 0
  Reads device reads a b =
      (device reads (1 * 4096) node_map_region_size ≡ some a)
      × (device (reads + 1) (17 * 4096) node_map_region_size ≡ some b)

  abbrev pub Step : Best → Bytes → Best → Type 0
  Step best raw next =
      (best.0 ≤ next.0)
      × NoNewer next.0 raw
      × ((next ≡ best) ⊎ ((payload : Bytes) × Holds next.0 payload raw × (next.1 ≡ some payload)))

  NoNewer-later : (g k : ℕ) (raw : Bytes) → g ≤ k → NoNewer g raw → NoNewer k raw
  NoNewer-later g k raw h (inl bad) = inl bad
  NoNewer-later g k raw h (inr (n, payload, e, small)) = inr (n, payload, e, omega arith)

  take_buffer-Step :
      (best : Best) (raw : Bytes) (r : Result (ℕ × Bytes))
      → parse_node_map_buffer checksum raw ≡ r
      → Step best raw (take_buffer best r)
  unfolding take_buffer
  take_buffer-Step best raw (fail e) h = (omega arith, inl (e, h), inl refl)
  take_buffer-Step best raw (ok (g, payload)) h = elim (Bool-cases (ltb best.0 g)) [
    | inl t ↦ rw t (ground arith, inr (g, payload, h, omega arith), inr (payload, h, refl))
    | inr t ↦ rw t (omega arith, inr (g, payload, h, ground arith), inl refl)
  ]

  -- The node map is the decoded payload, under the generation of the buffer.
  abbrev pub Decodes : (decode : Bytes → Option NodeMap) → ℕ → Bytes → NodeMap → Type 0
  Decodes decode generation payload nm =
      (decoded : NodeMap) × (parse_node_map_payload checksum decode payload ≡ ok decoded)
      × (nm ≡ record decoded { generation = generation })

  stamp-Decodes :
      (decode : Bytes → Option NodeMap) (g : ℕ) (payload : Bytes) (nm : NodeMap)
      (r : Result NodeMap)
      → parse_node_map_payload checksum decode payload ≡ r
      → stamp g r ≡ ok nm
      → Decodes decode g payload nm
  unfolding stamp
  stamp-Decodes decode g payload nm (fail e) parsed h = absurd (ground arith)
  stamp-Decodes decode g payload nm (ok decoded) parsed h = (decoded, parsed, sym (cc))

  finish_node_map-Decodes :
      (decode : Bytes → Option NodeMap) (best : Best) (nm : NodeMap)
      → finish_node_map checksum decode (ok best) ≡ ok nm
      → (payload : Bytes) × (best.1 ≡ some payload) × Decodes decode best.0 payload nm
  unfolding finish_node_map
  finish_node_map-Decodes decode (g, none) nm h = absurd (ground arith)
  finish_node_map-Decodes decode (g, some payload) nm h = (
    payload,
    refl,
    stamp-Decodes decode g payload nm (parse_node_map_payload checksum decode payload) refl h,
  )

  -- The node map comes from a buffer of this generation, and neither buffer is newer.
  abbrev pub IsNewest : (decode : Bytes → Option NodeMap) → NodeMap → ℕ → Bytes → Bytes → Type 0
  IsNewest decode nm generation a b =
      (payload : Bytes) × (Holds generation payload a ⊎ Holds generation payload b)
      × NoNewer generation a
      × NoNewer generation b
      × Decodes decode generation payload nm

  two_steps :
      (a b : Bytes) (first second : Best)
      → Step (0, none) a first
      → Step first b second
      → (payload : Bytes) → second.1 ≡ some payload
      → (Holds second.0 payload a ⊎ Holds second.0 payload b)
        × NoNewer second.0 a
        × NoNewer second.0 b
  two_steps a b first second (up, low, from_a) (up', low', inr (p, held, kept)) payload h =
      (inr (cc), NoNewer-later first.0 second.0 a up' low, low')
  two_steps a b first second (up, low, inl same) (up', low', inl same') payload h =
      let e : ◌≡◌ {A = Option Bytes} none (some payload) =
        ap (λ (best : Best). best.1) (sym (same' ∙ same)) ∙ h in
      absurd (ground arith)
  two_steps a b first second (up, low, inr (p, held, kept)) (up', low', inl same) payload h =
      let level : second.0 ≡ first.0 = ap (λ (best : Best). best.0) same in
      let kept' : second.1 ≡ some p = ap (λ (best : Best). best.1) same ∙ kept in
      (inl (cc), NoNewer-later first.0 second.0 a up' low, low')

  scan_buffers-first_fails :
      (device : Device) (reads : ℕ)
      → device reads (1 * 4096) node_map_region_size ≡ none
      → scan_buffers checksum device offsets reads (0, none) ≡ fail read_failed
  unfolding scan_buffers
  scan_buffers-first_fails device reads e = rw e refl

  scan_buffers-second_fails :
      (device : Device) (reads : ℕ) (a : Bytes)
      → device reads (1 * 4096) node_map_region_size ≡ some a
      → device (reads + 1) (17 * 4096) node_map_region_size ≡ none
      → scan_buffers checksum device offsets reads (0, none) ≡ fail read_failed
  unfolding scan_buffers
  scan_buffers-second_fails device reads a e e' = rw (e, e') refl

  scan_buffers-Reads :
      (device : Device) (reads : ℕ) (a b : Bytes)
      → Reads device reads a b
      → scan_buffers checksum device offsets reads (0, none)
        ≡ ok (
            take_buffer
              (take_buffer (0, none) (parse_node_map_buffer checksum a))
              (parse_node_map_buffer checksum b))
  unfolding scan_buffers
  scan_buffers-Reads device reads a b (e, e') = rw (e, e') refl

  finish_node_map-fails :
      (decode : Bytes → Option NodeMap) (nm : NodeMap) (scanned : Result Best)
      → scanned ≡ fail read_failed
      → finish_node_map checksum decode scanned ≡ ok nm
      → ⊥
  unfolding finish_node_map
  finish_node_map-fails decode nm scanned e h =
      let h' : ◌≡◌ {A = Result NodeMap} (fail read_failed) (ok nm) =
        sym (ap (finish_node_map checksum decode) e) ∙ h in
      absurd (ground arith)

  -- When an attempt succeeds, both reads did, the node map is the decoded payload of one of the two
  -- buffers, under the generation of that buffer, and the other buffer is invalid or no newer.
  pub read_node_map_once-IsNewest :
      (decode : Bytes → Option NodeMap) (device : Device) (reads : ℕ) (nm : NodeMap)
      → read_node_map_once checksum decode device reads ≡ ok nm
      → (a b : Bytes) × (g : ℕ) × (Reads device reads a b × IsNewest decode nm g a b)
  unfolding read_node_map_once
  read_node_map_once-IsNewest decode device reads nm h =
      elim (Option-cases (device reads (1 * 4096) node_map_region_size)) [
        | inl e ↦ absurd (
            finish_node_map-fails decode nm (scan_buffers checksum device offsets reads (0, none))
              (scan_buffers-first_fails device reads e) h)
        | inr (a, e) ↦ elim (Option-cases (device (reads + 1) (17 * 4096) node_map_region_size)) [
          | inl e' ↦ absurd (
              finish_node_map-fails decode nm (scan_buffers checksum device offsets reads (0, none))
                (scan_buffers-second_fails device reads a e e') h)
          | inr (b, e') ↦
              let first = take_buffer (0, none) (parse_node_map_buffer checksum a) in
              let second = take_buffer first (parse_node_map_buffer checksum b) in
              let h' : finish_node_map checksum decode (ok second) ≡ ok nm =
                sym (
                  ap (finish_node_map checksum decode)
                    (scan_buffers-Reads device reads a b (e, e')))
                ∙ h in
              let (payload, kept, decoding) = finish_node_map-Decodes decode second nm h' in
              let (held, low, low') =
                two_steps a b first second
                  (take_buffer-Step (0, none) a (parse_node_map_buffer checksum a) refl)
                  (take_buffer-Step first b (parse_node_map_buffer checksum b) refl) payload kept in
              (a, b, second.0, ((e, e'), (payload, held, low, low', decoding)))
        ]
      ]
