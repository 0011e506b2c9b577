-- ===== src/Tests.antt =====
-- The theorems at concrete inputs.
pub mod Deployment
pub mod Decisions
pub mod Access
pub mod Commands
pub mod Starts
pub mod Catalogued
pub mod Tables
pub mod Operations
pub mod Failures
pub mod Answers
