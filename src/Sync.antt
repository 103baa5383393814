-- ===== src/Sync.antt =====
-- server/internal/sync: the wire types, the operation transaction, the service and the handler.
pub mod Dto
pub mod Limits
pub mod Validate
pub mod Operations
pub mod Response
pub mod Process
pub mod Feed
pub mod Request
pub mod Handler
