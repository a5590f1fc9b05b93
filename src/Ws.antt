-- ===== src/Ws.antt =====
-- cpp/src/pmm/ws.cpp: the state of the two channels and what a message does to it. The sockets, the
-- threads and the locks are left out: an operation under a lock is one step.
pub mod User
pub mod Market
