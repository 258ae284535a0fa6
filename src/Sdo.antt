-- ===== src/Sdo.antt =====
-- pkg/sdo: the transfer of dictionary objects over the bus.
pub mod Abort
pub mod Buffer
pub mod Message
pub mod Server
