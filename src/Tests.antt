-- ===== src/Tests.antt =====
-- Runs of the models and of their theorems on concrete inputs.
pub mod Data
pub mod Access
pub mod Media
pub mod Relay
pub mod Requests
pub mod Replies
pub mod Http
pub mod Calls
pub mod Program
