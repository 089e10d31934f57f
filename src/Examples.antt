-- ===== src/Examples.antt =====
-- Concrete inputs at which the conditions of the theorems hold.
pub mod Keys
pub mod Options
pub mod Rows
pub mod Jobs
pub mod Requests
pub mod Uploads
pub mod Bucket
pub mod Settings
pub mod Process
pub mod Queues
pub mod Stores
pub mod Rollback
