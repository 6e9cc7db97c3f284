-- ===== src/Tests.antt =====
-- Runs of the definitions at small inputs, and the theorems applied there. The modules are named for
-- the parts of the program.
mod Order
mod Samples
mod Access
mod Records
mod Logins
mod Requests
mod Calls
mod Sessions
mod Startup
mod Reach
mod Vaults
mod Hooks
mod Queries
mod Members
mod Streams
mod Chunks
mod Files
mod Outbound
mod Keys
mod Bursts
