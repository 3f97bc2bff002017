-- ===== src/Tests.antt =====
-- Runs at concrete inputs, and the theorems applied to them.
mod Data
mod Network
mod Forwarder
mod Tables
mod Lp
mod DeadNonces
mod PitFib
mod Store
mod Forwarding
mod Routes
