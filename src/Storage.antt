-- ===== src/Storage.antt =====
-- internal/storage/storage.go: object keys, and the operations on the bucket.
pub mod Keys
pub mod Checks
pub mod Normal
pub mod Layout
pub mod Paths
pub mod Client
pub mod S3
pub mod Removal
pub mod Rounds
pub mod Pages
pub mod Files
pub mod Contents
pub mod Others
