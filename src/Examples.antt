-- ===== src/Examples.antt =====
-- Runs of the model at concrete inputs.
mod Crypto
mod Clob
mod Chain
mod TailVendor
mod Maker
mod Merge
mod Books
mod Ws
mod Engine
mod Wired
