-- ===== src/Fuse.antt =====
-- The FUSE mount of a remote file system (internal/fs/fuse_*.go).
pub mod Ranges
pub mod Version
pub mod Cache
pub mod Metadata
pub mod Errors
pub mod DataPlane
pub mod Upload
pub mod WriteBack
pub mod Runtime
pub mod File
pub mod Handles
pub mod Nodes
mod Tests
