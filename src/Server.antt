-- ===== src/Server.antt =====
-- src/server/http_server.cpp: the HTTP and WebSocket server. cpp-httplib and nlohmann/json are not part of
-- the program's code: requests come with their parameters already split, and answers stay structured.
pub mod Base64
pub mod Sha1
pub mod Frame
pub mod Clients
pub mod Json
pub mod Status
pub mod Routes
pub mod Host
