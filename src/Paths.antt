-- ===== src/Paths.antt =====
-- Slash-separated paths (internal/fs/data.go, pack.go, fuse_mount.go), with what the program uses of
-- Go's `path` and `strings` for them.
pub mod Clean
pub mod Archive
pub mod Remote
mod Tests
