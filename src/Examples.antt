-- ===== src/Examples.antt =====
-- Runs of the definitions on concrete inputs, and the instances of the theorems at such inputs.
pub mod Fixtures
pub mod Runs
pub mod Grants
pub mod Tables
pub mod Tokens
pub mod Requests
pub mod Plans
pub mod Setup
pub mod Cors
pub mod Redis
pub mod Limits
pub mod Keys
pub mod Polls
pub mod Process
