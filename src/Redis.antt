-- ===== src/Redis.antt =====
-- redis_resp.go: the client of Redis.
pub mod Resp
pub mod Server
pub mod Client
pub mod Operations
