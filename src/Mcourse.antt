-- ===== src/Mcourse.antt =====
-- src/server/mcourse: the server of the Matrix course system.
pub mod Config
pub mod Tasks
pub mod Build
pub mod Report
pub mod Checks
pub mod Dispatch
pub mod Gtest
pub mod Summary
pub mod Questions
pub mod Request
