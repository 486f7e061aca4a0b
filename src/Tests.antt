-- ===== src/Tests.antt =====
-- The theorems at concrete inputs, and runs of the code.
mod Witnesses
mod PadWitnesses
mod SelectionWitnesses
mod CircuitWitnesses
mod UserPadWitnesses
mod SessionWitnesses
mod RunWitnesses
mod Runs
