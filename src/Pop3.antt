-- ===== src/Pop3.antt =====
-- pop3d/handler.go: one POP3 session.
pub mod Command
pub mod Reply
pub mod Lines
pub mod Session
pub mod Messages
pub mod Loop
