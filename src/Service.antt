-- ===== src/Service.antt =====
-- src/service/: what the server does with the requests that it has read.
pub mod Replies
pub mod Processor
pub mod Http
