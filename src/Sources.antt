-- ===== src/Sources.antt =====
-- Response sources: MiniWebSrv/HTTP/RespSources, in Sources/.
pub mod Combiner
pub mod Text
pub mod Preflight
mod Tests
