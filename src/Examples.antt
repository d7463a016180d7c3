-- ===== src/Examples.antt =====
-- Tests, and the theorems at work on concrete values.
mod Hosts
mod Results
mod Grants
mod Snapshots
mod Frames
mod Enrolments
mod Confirmations
mod Signatures
mod Buses
