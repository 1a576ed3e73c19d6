-- ===== src/Cert.antt =====
-- The certificate store of the guest program: https-proxy/cert_store.cpp and https-proxy/cert_store.hpp.
pub mod Heap
pub mod Rules
pub mod Objects
pub mod Create
pub mod Steps
pub mod Authority
pub mod Leaf
pub mod Paths
pub mod Disk
pub mod Trust
pub mod Store
pub mod Files
pub mod Serving
pub mod Sni
pub mod Start
mod Tests
