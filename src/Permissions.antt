-- ===== src/Permissions.antt =====
-- core/permissions: the static policy, the manager that asks the user, the policy file, and what they guarantee.
pub mod Policy
pub mod Manager
pub mod Checks
pub mod Pending
pub mod Storage
pub mod Saved
pub mod Loading
pub mod RoundTrip
mod Examples
mod FileExamples
