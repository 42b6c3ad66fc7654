-- ===== src/Examples.antt =====
-- The sample programs below examples/.
pub mod Loop
pub mod RegisterServer
pub mod ZeroServer
pub mod TcpServer
pub mod TcpClient
pub mod Session
