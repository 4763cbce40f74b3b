-- ===== src/Tests.antt =====
-- Concrete modules, ports and databases, and the theorems at work on them.
mod Data
mod Modules
mod Ports
mod Database
mod Simulation
mod Start
mod Shown
mod Dumps
mod Rounds
mod Devices
mod Diagnostics
