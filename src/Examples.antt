-- ===== src/Examples.antt =====
-- Runs of the models at concrete inputs, and the theorems applied to concrete inputs.
mod TextRuns
mod TrellisRuns
mod GgufRuns
mod RequestRuns
mod ChatRuns
mod UnicodeRuns
mod BatchRuns
mod ServerRuns
mod TokenRuns
