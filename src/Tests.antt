-- ===== src/Tests.antt =====
-- Runs of the definitions and the theorems at concrete data.
mod Memory
mod Runs
mod Requests
mod Updates
mod Commands
mod Printers
mod Exchange
mod Tasks
mod Sessions
mod Extractions
mod Archives
mod Backups
mod Servers
