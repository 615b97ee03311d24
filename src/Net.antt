-- ===== src/Net.antt =====
-- netio.c and the buffers of util.c: the heap of Buffers, the requests to the serial device and the
-- timer, and the TFTP layer. Each C function is an action on the state; `none` is undefined
-- behaviour, such as the use of a Buffer that has been freed.
pub mod State
pub mod Tftp
pub mod Laws
pub mod Build
pub mod Frame
pub mod Send
pub mod Request
pub mod Fits
pub mod Kept
pub mod Receive
