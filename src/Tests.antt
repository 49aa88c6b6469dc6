-- ===== src/Tests.antt =====
-- Runs of the definitions at concrete inputs, and the theorems at inputs that meet their hypotheses.
pub mod Store
pub mod Address
pub mod Smtp
pub mod Pop3
pub mod Hub
pub mod Jobs
pub mod FileStore
pub mod Rest
pub mod Web
pub mod Program
pub mod Quit
pub mod Client
pub mod Templates
pub mod Startup
