-- ===== src/Tests.antt =====
-- Runs of the models on concrete inputs, and the theorems applied to them.
mod GroupE
mod GroupF
mod Coverage
mod Labyaml
mod Hosts
mod Six
mod GroupD
mod NoRouter
mod TwoPrefixes
mod Silent
mod Withdrawn
mod Addresses
mod Verdict
