-- ===== src/Examples.antt =====
-- The theorems at concrete inputs.
pub mod Queues
pub mod Tables
pub mod Sessions
pub mod Machines
pub mod Network
pub mod Messages
pub mod Traces
pub mod Treibers
pub mod Producing
