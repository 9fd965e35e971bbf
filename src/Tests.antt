-- ===== src/Tests.antt =====
-- Runs of the model on small worlds, and the theorems at concrete inputs.
mod Consumers
mod Servers
mod Accounts
mod Desk
mod Scene
mod Lifecycle
mod Claims
mod Whole
mod Access
