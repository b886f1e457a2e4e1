-- ===== src/Tests.antt =====
-- A Civo API kept in memory, which meets the laws that the theorems take; runs of the driver over
-- it; and the theorems at concrete data.
mod Memory
mod Create
mod Names
mod Attach
mod Grow
mod Node
mod Disks
mod Hook
mod Table
mod Mounts
mod Places
mod Start
mod Ledger
mod Real
