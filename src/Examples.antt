-- ===== src/Examples.antt =====
-- Runs on small inputs, and the theorems applied to them.
mod Motion
mod Wire
mod Session
mod Boards
mod Devices
mod Digest
mod Updates
