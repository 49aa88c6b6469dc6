-- ===== src/Smtp.antt =====
-- smtpd/handler.go: one SMTP session.
pub mod Command
pub mod Reply
pub mod MailArgs
pub mod Session
pub mod Delivery
pub mod Loop
pub mod Configured
