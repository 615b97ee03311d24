-- ===== src/Examples/Sending.antt =====
-- The packets of netio.c at a concrete heap.
use cwnet.Base.{
  ℕ, suc, ◌≡◌, ◌≤◌, ◌<◌, refl, ap, List, [], ◌∷◌, none, some, true, false, length, arith, ◌⊎◌, pos,
  ◌==◌, if◌then◌else◌, ◌%◌, ◌^◌,
}
use cwnet.Slip.{Buffer, max_buffer_size, error_buffer_overflow}
use cwnet.Slip.Spec.{encode, length-encode-le_double}
use cwnet.Packet.{big_endian}
use cwnet.Net.State.{System, Net, no_command}
use cwnet.Net.Laws.{IsFresh, Full, Made}
use cwnet.Net.Frame.{slip_frame, create_slip_frame_lem}
use cwnet.Net.Send.{IsPacket, Sent, Outcome, send_tftp_packet-Outcome}
use cwnet.Net.Request.{
  request_packet, data_packet, block_bytes, send_tftp_req_packet-Outcome,
  send_tftp_data_packet-Outcome,
}
use cwnet.Net.Fits.{send_tftp_data_packet-Sent, send_tftp_req_packet-Sent}
use cwnet.Net.Tftp.{
  create_slip_frame, send_tftp_packet, send_tftp_req_packet, send_tftp_data_packet,
}
use cwnet.Examples.{zeros, length-zeros}

-- A system with memory for every request.
abbrev pub amiga : System
amiga = record {
  order = big_endian;
  alloc_ok = λ n. true;
  junk = λ n. zeros 1024;
  junk_size = λ n. length-zeros 1024;
  do_io = λ r. pos 0;
  do_io_actual = λ r. 0;
}

-- The heap with no block, and with one that holds a TFTP packet of five bytes.
abbrev pub empty_net : Net
empty_net = record {
  errno = 0;
  cell = λ a. none;
  next = 0;
  sreq = record {
    io_command = no_command;
    eof_mode = false;
    io_length = 0;
    io_data = 0;
    io_actual = 0;
    io_error = pos 0;
    pending = false;
  };
  treq = record { tv_secs = 0; running = false };
  wire = [];
}

empty_net-IsFresh : IsFresh empty_net
empty_net-IsFresh a h = refl

abbrev packet_bytes : List ℕ
packet_bytes = 0 ∷ 3 ∷ 0 ∷ 1 ∷ 0xc0 ∷ []

abbrev packet_buffer : Buffer
packet_buffer = record { b_addr = 0 ∷ 3 ∷ 0 ∷ 1 ∷ 0xc0 ∷ zeros 1019; b_size = 5 }

abbrev packet_net : Net
packet_net = record empty_net { cell = λ a. if a == 0 then some packet_buffer else none; next = 1 }

packet_net-IsFresh : IsFresh packet_net
packet_net-IsFresh a h = ground arith

packet_net-Full : Full packet_net 0 packet_bytes
packet_net-Full = record {
  block = packet_buffer;
  found = refl;
  holds = record {
    block = record {
      block_size = ap (λ n. suc (suc (suc (suc (suc n))))) (length-zeros 1019);
      in_use = omega arith;
    };
    bytes_eq = refl;
  };
}

create_slip_frame_example :
    ((length (encode packet_bytes) < max_buffer_size)
      × ((s : Net) × (create_slip_frame amiga 0 packet_net ≡ some (some 1, s))
          × Made packet_net s (slip_frame packet_bytes)))
    ⊎ ((max_buffer_size ≤ length (encode packet_bytes))
        × ((s : Net) × (create_slip_frame amiga 0 packet_net ≡ some (none, s))
            × (s.errno ≡ error_buffer_overflow)
            × (s.wire ≡ packet_net.wire)))
create_slip_frame_example =
    create_slip_frame_lem amiga packet_net 0 packet_bytes packet_net-IsFresh refl packet_net-Full

send_tftp_packet_example :
    (packet : List ℕ) × IsPacket amiga packet_bytes packet
    × Outcome (send_tftp_packet amiga 0 true) packet_net packet
send_tftp_packet_example =
    send_tftp_packet-Outcome amiga packet_net 0 packet_bytes packet_net-IsFresh (refl, refl, refl)
      packet_net-Full (omega arith)

-- "a.txt"
abbrev file_name : List ℕ
file_name = b'a' ∷ b'.' ∷ b't' ∷ b'x' ∷ b't' ∷ []

send_tftp_req_packet_example :
    (packet : List ℕ) × IsPacket amiga (request_packet 2 file_name) packet
    × Outcome (send_tftp_req_packet amiga 2 file_name) empty_net packet
send_tftp_req_packet_example =
    send_tftp_req_packet-Outcome amiga empty_net 2 file_name empty_net-IsFresh refl
      (refl, refl, refl) (omega arith) (omega arith)

send_tftp_data_packet_example :
    (packet : List ℕ) × IsPacket amiga
      (data_packet (1 % 2 ^ 16) (block_bytes (7 ∷ 8 ∷ 9 ∷ []) 1 2))
      packet
    × Outcome (send_tftp_data_packet amiga 1 (7 ∷ 8 ∷ 9 ∷ []) 1 (pos 2)) empty_net packet
send_tftp_data_packet_example =
    send_tftp_data_packet-Outcome amiga empty_net 1 (7 ∷ 8 ∷ 9 ∷ []) 1 2 empty_net-IsFresh refl
      (refl, refl, refl) (omega arith)

send_request_example :
    (packet : List ℕ) × IsPacket amiga (request_packet 2 file_name) packet
    × ((s : Net) × (send_tftp_req_packet amiga 2 file_name empty_net ≡ some (true, s))
        × Sent empty_net s (slip_frame packet))
send_request_example =
    send_tftp_req_packet-Sent amiga empty_net 2 file_name empty_net-IsFresh refl (refl, refl, refl)
      (omega arith) (omega arith)

send_data_example :
    (packet : List ℕ) × IsPacket amiga
      (data_packet (1 % 2 ^ 16) (block_bytes (7 ∷ 8 ∷ 9 ∷ []) 1 2))
      packet
    × ((s : Net) × (send_tftp_data_packet amiga 1 (7 ∷ 8 ∷ 9 ∷ []) 1 (pos 2) empty_net
          ≡ some (true, s))
        × Sent empty_net s (slip_frame packet))
send_data_example =
    send_tftp_data_packet-Sent amiga empty_net 1 (7 ∷ 8 ∷ 9 ∷ []) 1 2 empty_net-IsFresh refl
      (refl, refl, refl) (omega arith)
      (omega (arith, length-encode-le_double (block_bytes (7 ∷ 8 ∷ 9 ∷ []) 1 2)))
