-- ===== src/Block.antt =====
-- tests/sbr-operator/tests/block_storage_rbd_helpers.go: the reader of the on-device format of a
-- Block-mode SBR device. Devices are read in pods of the cluster, which is a parameter; what is read
-- is a list of bytes. The checksum is `crc32.ChecksumIEEE`, a parameter too.
pub mod Bytes
pub mod Header
pub mod Slices
pub mod RoundTrip
pub mod FenceLayout
pub mod Fences
pub mod NodeMap
pub mod Heartbeats
pub mod Superblock
mod Tests
use medik8s_system_tests.Base.{ℕ}
