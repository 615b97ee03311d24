-- ===== src/Lib.antt =====
-- CWNet is an AmigaOS file system handler that sends the files written to the device NET: to a TFTP
-- server over a serial line. A client (the Shell's COPY, say) talks to the handler in DOS packets. The
-- handler (handler.c, with the actions in dos.c) keeps a queue of file transfers and a list of locks, and
-- sends one file at a time: it asks the network module (netio.c) to wrap a TFTP packet in UDP, IP and
-- SLIP and to hand the frame to the serial device, and goes on when the device's request, or that of the
-- timer, comes back to its message port. For its own events it puts one internal packet on that port.
--
-- Files of this library and what they model:
--
--   Base         names and lemmas that all share; a faulting access is none (Base/Fault)
--   Protocol     the constants of netio.h and dos.h
--   Slip         netio.c: slip_encode_buffer, slip_decode_buffer. A Buffer (util.h) is the list of the
--                bytes of its whole block and the count of those in use. Slip/Spec is the coding of
--                RFC 1055 that the functions are compared with
--   Packet       netio.c, netio.h: IPHeader, UDPHeader, calc_checksum, the copies of the create and
--                get_data functions. The byte order of the machine is a parameter
--   Net          netio.c, util.c. Net/State: the heap of Buffers, the serial and the timer request,
--                g_netio_errno, create_buffer, delete_buffer, send_slip_frame, recv_slip_frame and the
--                status functions; Net/Tftp: the packets from create_udp_packet to get_blknum. The
--                functions are in a state monad whose failure is undefined behaviour. Net/Laws,
--                Net/Build, Net/Frame, Net/Send, Net/Request, Net/Fits, Net/Receive and Net/Kept hold the
--                proofs
--   Handler      dos.c, handler.c. Handler/Names: BCPL_TO_C_STR and the parts of names;
--                Handler/State: FileTransfer, FileBuffer, LinkedLock, the globals and variables of entry,
--                send_internal_packet, return_dos_packet; Handler/Files: do_find_output, do_write and the
--                cases of the main loop for transfers; Handler/Locks: do_locate_object,
--                do_examine_object, do_examine_next, ACTION_FREE_LOCK; Handler/Replies: do_write_return,
--                do_read_return, ACTION_TIMER_EXPIRED; Handler/Loop: the main loop. The rest of the
--                folder holds the proofs, named for what they are about
--   Handler/Network
--                what the handler calls of netio.c, as a record of operations; Handler/Wire: that record
--                filled with the model of netio.c, over what the devices do to their requests; Handler/Timeouts: a
--                timeout there. Handler/Reliable: the laws of such a record when no packet is lost, on
--                which the proofs about a transfer (Handler/Transfer) rest; Handler/Server: what a server
--                reads off the frames; Handler/Lossless: the laws shown for the model of netio.c, with
--                devices that lose nothing and a server that acknowledges each block
--   Minitftp     minitftp.c, the command that sends one file. Minitftp/Host: the calls of the C library as
--                a record of operations, and the variables of main; Minitftp/Packets: get_basename and the
--                packets; Minitftp/Command: the other functions and main. Minitftp/Contract has the laws of
--                such a host, Minitftp/Runs the rules for chains of statements, Minitftp/Receiver what a
--                server makes of the packets; the rest of the folder holds the proofs
--   SlipClient   slip.c, a command that sends one request over a socket: copy_and_encode_data and
--                send_packet; main is in SlipClient/Command
--   Startup      netio.c, handler.c: netio_init, netio_exit, and entry, which runs the loop of Handler/Loop,
--                on whatever the operating system grants; proofs in Startup/Attempt and Startup/Balance
--   Listq        listq.c, on calls of dos.library that send their packets to the model of the handler;
--                Listq/Listing and Listq/Whole hold the proofs
--   Unmount      unmount.c, which sends ACTION_DIE to the model of the handler; proofs in
--                Unmount/Search and Unmount/Removal
--   Serecho      serecho.c: strncpy, strncat, the loop over messages and main; Serecho/Echo is about one
--                message, Serecho/Served about a session, Serecho/Safe about any messages
--   Examples     concrete data at which the theorems apply
--
-- Pointers: a FileTransfer is its index in g_transfers (which never shrinks); a Buffer and a LinkedLock
-- have the number of the request for memory that made them as their address. fb_curpos is an index into
-- the bytes of its buffer. PutMsg of a message that is on the port already is a fault. Strings are lists
-- of bytes without their NUL. LONG, ULONG and USHORT values wrap round where the code computes with them,
-- by an explicit remainder; fb_nbytes_to_send is an integer with a sign.
--
-- Loops: both loops of the SLIP functions and the loop of calc_checksum recurse on the rounds that are
-- left by their own bounds, so no fuel is chosen. The main loop does a round for each packet; the
-- theorems on transfers give the finite sequence of rounds (Runs) that a transfer takes. Those on netio.c
-- stop at block 191, since the acknowledgement of block 192 has a byte that SLIP escapes, and the decoder
-- reads such a frame beyond its end (Slip/Decode). The loop of minitftp.c runs on fuel, of which one more
-- than the full blocks of the file is enough on any network (recvfrom may wait for ever, which is an
-- outcome of its own); that of listq.c does too, and needs one more than the files of the queue. The loop
-- of serecho.c takes the list of what comes in, and still waits at its end.
--
-- Parameters: whether the n-th request for memory is met and what the memory holds; how the devices
-- answer; which messages arrive and in what order; what the calls of the C library and of dos.library
-- return, with laws from their documentation. Characters are signed, as on the 68000 with gcc, in
-- BCPL_TO_C_STR. Blocks from AllocVec are not checked for alignment.
--
-- Not modelled: log and dump_buffer (util.c), whose output nothing reads; the messages that the commands
-- print on errors; logtest.c and the startup code cwcrt0.c, which only call the operating system; the
-- dates of the FileInfoBlock, which the code leaves as they are.
pub mod Base
pub mod Protocol
pub mod Slip
pub mod Packet
pub mod Net
pub mod Handler
pub mod Minitftp
pub mod SlipClient
pub mod Startup
pub mod Listq
pub mod Unmount
pub mod Serecho
pub mod Examples
