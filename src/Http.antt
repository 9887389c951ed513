-- ===== src/Http.antt =====
-- The HTTP side of a connection: MiniWebSrv/HTTP/Connection.cpp, in Http/.
pub mod RequestLine
pub mod HeaderLine
pub mod Head
pub mod ContentType
pub mod Content
pub mod Write
pub mod Delimited
pub mod Compare
pub mod Month
pub mod Body
pub mod Connection
pub mod Response
mod Tests
