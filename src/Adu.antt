-- ===== src/Adu.antt =====
-- The headers below include/mothbus/adu/.
pub mod Buffer
pub mod Crc
pub mod Layer
pub mod Master
pub mod Rtu
pub mod Stream
pub mod Timed
pub mod Tcp
