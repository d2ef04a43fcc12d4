-- ===== src/Link.antt =====
-- The point-to-point link.
pub mod Ns3
pub mod Ppp
pub mod Channel
pub mod Device
pub mod Timed
pub mod Remote
pub mod Helper
mod Sample
mod Tests
