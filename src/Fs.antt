-- ===== src/Fs.antt =====
-- src/storage/fs.rs: the store of one directory tree.
pub mod Reads
pub mod Chunks
pub mod Covering
pub mod Tree
pub mod Files
pub mod Versions
pub mod Store
pub mod Segments
pub mod Places
pub mod Runs
pub mod ReadBack
pub mod Collisions
pub mod OneVersion
pub mod Multipart
pub mod Settings
pub mod Configured
