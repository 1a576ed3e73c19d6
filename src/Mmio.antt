-- ===== src/Mmio.antt =====
-- The structures through which the guest program https-proxy/https-proxy.cpp and the host program
-- webcm.cpp talk, declared alike in both, and the copying of text into them.
pub mod Structs
pub mod Layout
pub mod Text
mod Tests
