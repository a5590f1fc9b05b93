-- ===== src/Wire.antt =====
-- cpp/src/pmm/wire/clob_wire.cpp: the wire format of the order book's API.
pub mod Base64
pub mod Body
pub mod Auth
