-- ===== src/GSoap.antt =====
-- The demonstration of gSOAP: demos/gSOAP/c_server_doc.c, c_server_rpc.c, c_client_doc.c and
-- c_client_rpc.c.
pub mod Memory
pub mod Greeting
pub mod Server
mod Tests
