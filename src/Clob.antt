-- ===== src/Clob.antt =====
-- cpp/src/pmm/clob_submitter.cpp: the client that signs orders and sends them to the exchange.
pub mod Amounts
pub mod Trades
pub mod Client
pub mod Orders
pub mod Flatten
pub mod Submit
pub mod Account
