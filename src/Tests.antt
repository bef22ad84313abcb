-- ===== src/Tests.antt =====
-- Concrete instances of the parameters, test data, and the theorems at concrete inputs.
mod Toy
mod Codecs
mod Data
mod Disk
mod Index
mod Chain
mod Ledger
mod Download
mod Pool
mod Network
mod Forks
mod Slots
mod Start
mod Purse
mod Safe
mod Halves
mod Desk
