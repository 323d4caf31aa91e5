-- ===== src/Erasure.antt =====
-- src/erasure/store.rs: versions and listings of the erasure-coded store.
pub mod Drives
pub mod Versions
pub mod History
pub mod Undelete
pub mod Listing
pub mod Pages
pub mod VersionPages
pub mod VersionBounds
pub mod Codec
pub mod Sharded
