-- ===== src/Server.antt =====
-- web/src/server: the server functions that stand between the browser and the Go services.
pub mod Types
pub mod Dto
pub mod Inputs
pub mod Validate
pub mod Services
pub mod Clients
pub mod Calls
pub mod Listing
pub mod Functions
