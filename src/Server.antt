-- ===== src/Server.antt =====
-- backend/internal/server and auth: the gRPC server, the middleware and the handlers of the HTTP
-- server.
pub mod Grants
pub mod Lookup
pub mod Replied
pub mod Http
pub mod Quiet
pub mod Auth
pub mod Jwt
pub mod Grpc
pub mod Handler
