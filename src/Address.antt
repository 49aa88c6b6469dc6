-- ===== src/Address.antt =====
-- smtpd/utils.go: mailbox names, domain parts and email addresses.
pub mod Mailbox
pub mod Domain
pub mod Email
