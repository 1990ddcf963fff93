-- ===== src/App.antt =====
-- The pages of the dashboard together: what their handlers, one after the other, make of the session
-- (frontend/tenant-dashboard/app/, frontend/tenant-dashboard/components/layout/ and
-- frontend/tenant-dashboard/lib/api/client.ts).
pub mod Tracks
pub mod Kept
pub mod Handlers
pub mod Pages
pub mod SignIn
pub mod Acts
pub mod Machine
pub mod Arrive
pub mod Overlap
pub mod Steps
pub mod Runs
pub mod Reached
pub mod Visits
