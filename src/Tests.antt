-- ===== src/Tests.antt =====
-- Runs of the definitions on concrete inputs, and the theorems at inputs that meet their hypotheses.
mod Sample
mod Tables
mod Objects
mod Runs
mod Docs
mod Outcomes
mod Fields
mod Steps
mod Mage
mod Recorded
mod Parsed
mod Settled
mod Copies
mod Gone
mod Command
mod Sources
