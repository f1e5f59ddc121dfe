-- ===== src/RdmaExample.antt =====
-- rdma-example: the server of rdma-example/src/server.cpp and the main of its client. What they share
-- with rwbenchmark, the functions of common.cpp and the class Client, is the same text there, and the
-- same definition here.
pub mod Server
pub mod Client
pub mod Resources
pub mod Quiet
pub mod Holding
pub mod Lending
pub mod Accepting
pub mod Released
pub mod Unset
