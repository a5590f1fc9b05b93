-- ===== src/Chain.antt =====
-- cpp/src/pmm/chain/: what is sent to the Polygon chain, as bytes.
pub mod Rlp
pub mod Ctf
pub mod ProxyExec
pub mod Eip1559
pub mod Rpc
pub mod MergeFlatten
