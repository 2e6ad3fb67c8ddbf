-- ===== src/Tests.antt =====
-- Concrete runs: data at which the theorems' hypotheses hold, and the theorems applied to them.
pub mod Data
mod Rings
mod Drivers
mod Maps
mod Bridging
mod Joining
mod Answering
mod Plugging
mod Wires
mod Starting
