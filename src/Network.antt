-- ===== src/Network.antt =====
-- The network program: pkg/bpf/c/restricted_network_structs.h (Structs), the reports to user space
-- (Report) and the program on the LSM hook socket_connect (Connect) of
-- pkg/bpf/c/restricted-network.bpf.c, with what is proved of them.
pub mod Structs
pub mod Report
pub mod Connect
pub mod Ports
pub mod Key
pub mod Policy
pub mod Decision
pub mod Lists
pub mod Packet
pub mod Event
