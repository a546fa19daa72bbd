-- ===== src/Main.antt =====
-- main.go: the command line, the configuration and its checks, what dnsManage sets up, and the health
-- endpoint.
pub mod Store
pub mod Cli
pub mod Config
pub mod Setup
pub mod Launch
pub mod Election
pub mod Health
mod Examples
