-- ===== src/Tests.antt =====
-- Runs of the definitions on small inputs, and instances of the theorems.
mod Delivery
mod Serial
mod Phone
mod Words
mod Threads
mod Setup
mod Loop
mod Discovery
mod Fleet
mod Port
