-- ===== src/Jaxrs.antt =====
-- jaxrs-support: paths with parameters, the metadata of annotated methods, and the routing of
-- requests to them.
pub mod Paths
pub mod Metadata
pub mod Routing
pub mod Registration
pub mod Bridge
pub mod Client
pub mod Template
