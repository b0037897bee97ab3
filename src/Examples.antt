-- ===== src/Examples.antt =====
-- The theorems at concrete inputs.
mod Scheduler
mod Parts
mod Manager
mod Server
mod Serving
mod Lost
mod Rpcs
mod Instances
mod Client
