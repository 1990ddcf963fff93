-- ===== src/Docs.antt =====
-- frontend/tenant-dashboard/app/docs/page.tsx: the documentation of the API. Its sections are data,
-- as texts, tables and code; what only styles them is left out.
pub mod Block
pub mod Guides
pub mod Reference
pub mod Webhooks
pub mod View
pub mod Laws
pub mod Errors
