-- ===== src/Examples.antt =====
-- The theorems at concrete inputs, and tests of the definitions.
mod Graphs
mod Commands
mod Values
mod Names
mod Networks
mod Terminals
mod Yards
