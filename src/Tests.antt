-- ===== src/Tests.antt =====
-- Runs on concrete inputs, and each theorem at an input that meets its hypotheses.
mod Kernel
mod Reasons
mod Store
mod Library
mod Intake
mod Compare
mod Graph
mod Release
mod Strict
mod Pulse
mod SecretZone
mod Host
