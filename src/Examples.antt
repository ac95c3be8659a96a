-- ===== src/Examples.antt =====
-- The theorems at concrete inputs, and tests.
mod Webs
mod Hashes
mod Yamls
mod Registries
mod Documents
mod Environments
mod Directories
mod Zips
mod Copies
mod Writes
mod Apts
mod Store
mod Sets
mod Texts
mod Timing
mod Voyeurs
mod Flags
mod Shells
mod Runs
mod Tails
mod Tars
mod Amounts
mod Links
mod Nets
mod Timings
mod Proxies
mod Locks
mod Tries
mod Statuses
mod Files
