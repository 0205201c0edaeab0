-- ===== src/Client.antt =====
-- network_client.cpp and network_client.h: one connection of a client.
pub mod Libevent
pub mod Settings
pub mod Judge
pub mod Deliver
pub mod Queue
pub mod Connection
