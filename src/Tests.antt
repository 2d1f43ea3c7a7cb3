-- ===== src/Tests.antt =====
-- Tests on concrete inputs, and the theorems applied at inputs that meet their hypotheses.
mod Configuring
mod Filtering
mod Serving
mod Observing
mod Fixtures
mod Balancing
mod Hashing
mod Breaking
mod Retrying
mod Wiring
mod Relaying
mod Ending
mod Sharing
mod Living
mod Describing
