-- ===== src/IoManager.antt =====
-- network/io_manager.cpp: port numbers, the frequency of exceptions, and the connections that wait
-- to be accepted.
pub mod Ports
pub mod Exceptions
pub mod Manager
pub mod Connect
pub mod Server
