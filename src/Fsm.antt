-- ===== src/Fsm.antt =====
-- The state machine of xenon-fsm: its configuration, its firing, and the service that hosts it.
pub mod Behaviour
pub mod Representation
pub mod Config
pub mod Machine
pub mod Document
pub mod Dot
pub mod Xenon
pub mod Expiry
pub mod Service
pub mod Stats
pub mod Create
mod Tests
mod ServiceTests
