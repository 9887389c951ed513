-- ===== src/Query.antt =====
-- Query and form parameters: MiniWebSrv/HTTP/QueryParams.cpp and QueryParams.h, in Query/.
pub mod Params
pub mod Url
pub mod Boundary
pub mod Upload
pub mod Parts
pub mod Form
mod Tests
