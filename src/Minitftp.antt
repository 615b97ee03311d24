-- ===== src/Minitftp.antt =====
-- minitftp.c, the command that sends one file to a TFTP server over UDP.
pub mod Packets
pub mod Host
pub mod Command
pub mod Runs
pub mod Contract
pub mod Steps
pub mod Blocks
pub mod Receiver
pub mod Loop
pub mod Exchange
pub mod Whole
pub mod Served
pub mod Delivery
