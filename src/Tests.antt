-- ===== src/Tests.antt =====
-- The theorems at concrete inputs, and runs of the model.
mod Crates
mod Database
mod Iavl
mod Save
mod Reopened
mod Faults
mod Store
mod Merkle
mod App
mod Gaia
mod Refused
mod Bank
mod Messages
mod Auth
mod Ante
mod Range
mod Tx
mod Queries
