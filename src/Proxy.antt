-- ===== src/Proxy.antt =====
-- dap-lib/src/proxy: the connection counter, the serving of one query over TCP and UDP, and a proxy
-- whose tasks are interleaved.
pub mod Counter
pub mod Threads
pub mod Serve
pub mod ServeLaws
pub mod Sockets
pub mod Service
pub mod ServiceLaws
pub mod Interleaved
pub mod Capacity
pub mod CapacityLaws
pub mod Answering
