-- ===== src/Examples/Echoing.antt =====
-- serecho with one message and the message that ends it; slip with a server that takes its packet.
use cwnet.Base.{ℕ, ◌≡◌, refl, ◌⊎◌, List, [], ◌∷◌, ◌++◌, map, none, some, true, false, length, arith}
use cwnet.Packet.{big_endian}
use cwnet.Packet.Headers.{IsIpHeader}
use cwnet.Net.Build.{udp_datagram}
use cwnet.Net.Frame.{slip_frame}
use cwnet.SlipClient.Command.{SocketCalls, Connection, wrq, slip, ended, slip-ended}
use cwnet.Examples.Commands.{filled, length-filled}
use cwnet.Serecho.{Session, Machine, cmd_read, serecho, serial_message, ctrl_c}
use cwnet.Serecho.Echo.{answer}
use cwnet.Serecho.Served.{session, Done, serecho-Done}
use cwnet.Serecho.Safe.{Kept, serecho_safe}

-- "hi" and "." in arrays of 256 bytes
abbrev hi : List ℕ
hi = b'h' ∷ b'i' ∷ 0 ∷ filled 253

abbrev dot : List ℕ
dot = b'.' ∷ filled 255

hi_size : length hi ≡ 256
hi_size = omega (arith, length-filled 253)

abbrev generous : Machine
generous = record { grants = λ r. true; configures = true }

abbrev begun : Session
begun = record {
  command = cmd_read;
  serial_out = false;
  timer_out = false;
  running = true;
  txbuf = filled 256;
  written = [];
  held = [];
}

serecho-Done_example :
    (s' : Session) × (serecho generous (session (hi ∷ []) dot) begun ≡ some (some s'))
    × Done s' ([] ++ map answer (hi ∷ [])) []
serecho-Done_example =
    serecho-Done (hi ∷ []) dot generous begun (λ r. refl) refl ((hi_size, (b'h', refl, refl)), tt)
      refl (length-filled 256)

serecho_safe_example :
    (serecho generous (serial_message true 0 hi ∷ ctrl_c ∷ []) begun ≡ some none)
    ⊎ ((s' : Session) × (serecho generous (serial_message true 0 hi ∷ ctrl_c ∷ []) begun
          ≡ some (some s'))
        × Kept begun s')
serecho_safe_example =
    serecho_safe generous (serial_message true 0 hi ∷ ctrl_c ∷ []) begun (hi_size, (tt, tt))
      (length-filled 256)

abbrev willing : SocketCalls
willing = record { made = true; connected = true; takes = λ frame. true }

abbrev unconnected : Connection
unconnected = record { sockets = 0; sent = [] }

slip-ended_example :
    (header : List ℕ) × IsIpHeader big_endian 29 header
    × (slip big_endian willing (filled 65535) unconnected
        ≡ some (ended willing (slip_frame (header ++ udp_datagram wrq)) unconnected))
slip-ended_example = slip-ended big_endian willing (filled 65535) unconnected (length-filled 65535)
