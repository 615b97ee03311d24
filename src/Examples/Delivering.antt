-- ===== src/Examples/Delivering.antt =====
-- A session and a transfer on netio.c, with a server that acknowledges what it gets.
use cwnet.Base.{
  ℕ, zero, ◌+◌, ◌≡◌, ◌≤◌, refl, ap, ◌∙◌, suc, List, [], ◌∷◌, ◌++◌, map, none, some, true, false,
  length, take, drop, min, arith, get_elem?, All, if◌then◌else◌, ◌==◌, length-take, length-drop,
}
use cwnet.Slip.{Buffer}
use cwnet.Slip.Spec.{length-encode-le_double}
use cwnet.Net.State.{Net, Command, no_command, cmd_read, cmd_write}
use cwnet.Handler.State.{
  FileBuffer, wrq_sent, finished, Handler, find_output, write, end_file, file_finished,
  send_next_file, send_next_buffer, no_action, own,
}
use cwnet.Handler.Files.{get_next_file_from_queue, ready_from}
use cwnet.Handler.Accept.{serve}
use cwnet.Handler.Reliable.{Runs}
use cwnet.Handler.Server.{received, last_number}
use cwnet.Handler.Transfer.{file_at, Told}
use cwnet.Handler.Transfer.Whole.{buffers_of, numbered, joined, IsShort}
use cwnet.Handler.Wire.{over_netio}
use cwnet.Handler.Lossless.{IsPlain, Serves, IsReady, ack, write_done, read_done}
use cwnet.Handler.Lossless.Delivery.{AllFit, lossless, session_delivered, transfer_delivered}
use cwnet.Examples.{zeros, length-zeros}
use cwnet.Examples.Sending.{amiga, empty_net}
use cwnet.Examples.Sessions.{url, url_string, url_name}

-- A server whose answers have headers of zeroes.
abbrev answer : Net → Net
answer s = elim (s.cell (s.sreq).io_data) [
  | none ↦ s
  | some r ↦ read_done s r (zeros 20 ++ (zeros 8 ++ ack (last_number s.wire)))
]

answer_lem :
    (s : Net) (b : Buffer)
    → s.cell (s.sreq).io_data ≡ some b
    → answer s ≡ read_done s b (zeros 20 ++ (zeros 8 ++ ack (last_number s.wire)))
answer_lem s b found =
    ap
      (λ o. elim o [
        | none ↦ s
        | some r ↦ read_done s r (zeros 20 ++ (zeros 8 ++ ack (last_number s.wire)))
      ])
      found

abbrev act : Net → Command → Net
act s no_command = s
act s cmd_write = write_done s
act s cmd_read = answer s

abbrev server : Net → Net
server s = act s (s.sreq).io_command

zeros-IsPlain : (n : ℕ) → All IsPlain (zeros n)
zeros-IsPlain zero = tt
zeros-IsPlain (suc n) = (((λ e. omega arith), (λ e. omega arith)), zeros-IsPlain n)

server-Serves : Serves server
server-Serves = record {
  ip_hdr = λ s. zeros 20;
  udp_hdr = λ s. zeros 8;
  ip_length = λ s. refl;
  udp_length = λ s. refl;
  ip_plain = λ s. zeros-IsPlain 20;
  udp_plain = λ s. zeros-IsPlain 8;
  writes = λ s writing pending. ap (act s) writing;
  answers = λ s b reading pending found small. ap (act s) reading ∙ answer_lem s b found;
}

-- The heap with the handler's Buffer for received packets only.
abbrev callers : Buffer
callers = record { b_addr = zeros 1024; b_size = 0 }

abbrev at_rest : Net
at_rest = record empty_net { cell = λ a. if a == 0 then some callers else none; next = 1 }

at_rest-IsReady : IsReady 0 at_rest
at_rest-IsReady = record {
  out = callers;
  room = length-zeros 1024;
  kept = record { fresh = λ a far. ground arith; near = omega arith; has = refl };
}

abbrev idle : Handler Net
idle = record {
  running = true;
  busy = false;
  transfers = [];
  locks = [];
  lock_blocks = 0;
  requests = 0;
  outpkt = record { dp_type = send_next_file; dp_arg1 = none };
  iopkt1 = record { dp_type = no_action; dp_arg1 = none };
  port = [];
  replies = [];
  ftx = none;
  dn_task = true;
  net = at_rest;
}

short_fits : (bytes : List ℕ) → length bytes ≤ 479 → AllFit bytes
short_fits bytes short c n = omega (
  arith,
  length-encode-le_double (take (min n 512) (drop c bytes)),
  length-take (min n 512) (drop c bytes),
  length-drop c bytes,
)

abbrev two_pieces : List (List ℕ)
two_pieces = (1 ∷ 2 ∷ []) ∷ (0xc0 ∷ []) ∷ []

pieces_fit : All AllFit two_pieces
pieces_fit = (short_fits (1 ∷ 2 ∷ []) (omega arith), (short_fits (0xc0 ∷ []) (omega arith), tt))

session_delivered_example :
    (h₁ h₂ : Handler Net) × (sent : List (List ℕ)) × (serve
        (over_netio amiga server 0)
        (find_output (7 ∷ url) ∷ (map (write 0) two_pieces ++ end_file 0 ∷ []))
        idle
      ≡ some h₁)
    × Runs (over_netio amiga server 0) h₁ h₂
    × (received (h₂.net).wire ≡ received [] ++ numbered 0 sent)
    × All IsShort sent
    × (joined sent ≡ joined two_pieces)
    × (get_elem? h₂.transfers 0 ≡ some (file_at (b'f' ∷ []) finished (0 + length sent) 0 []))
    × (h₂.busy ≡ false)
unfolding get_next_file_from_queue ready_from
session_delivered_example =
    session_delivered amiga server 0 (λ n. refl) server-Serves (7 ∷ url) url (b'f' ∷ []) two_pieces
      idle url_string url_name refl refl refl at_rest-IsReady (omega arith) pieces_fit (omega arith)

-- The handler when the write request was acknowledged.
abbrev buffers : List FileBuffer
buffers =
    buffers_of (over_netio amiga server 0) (lossless amiga server 0 (λ n. refl) server-Serves) 0
      (b'f' ∷ []) 0 two_pieces

abbrev asked : Handler Net
asked = record idle {
  busy = true;
  transfers = file_at (b'f' ∷ []) wrq_sent 0 0 buffers ∷ [];
  outpkt = record { dp_type = send_next_buffer; dp_arg1 = some 0 };
  iopkt1 = record { dp_type = no_action; dp_arg1 = some 0 };
  port = own ∷ [];
}

asked-Told :
    Told
      (over_netio amiga server 0)
      (lossless amiga server 0 (λ n. refl) server-Serves)
      0
      send_next_buffer
      (file_at (b'f' ∷ []) wrq_sent 0 0 buffers)
      asked
asked-Told = record { found = refl; one = refl; asks = refl; io = refl; at_rest = at_rest-IsReady }

transfer_delivered_example :
    (h' : Handler Net) × (sent : List (List ℕ)) × Runs (over_netio amiga server 0) asked h'
    × (received (h'.net).wire ≡ received [] ++ numbered 0 sent)
    × All IsShort sent
    × (joined sent ≡ joined two_pieces)
    × Told
        (over_netio amiga server 0)
        (lossless amiga server 0 (λ n. refl) server-Serves)
        0
        file_finished
        (file_at (b'f' ∷ []) finished (0 + length sent) 0 [])
        h'
    × (h'.busy ≡ false)
transfer_delivered_example =
    transfer_delivered amiga server 0 (λ n. refl) server-Serves 0 (b'f' ∷ []) 0 wrq_sent 0
      two_pieces asked pieces_fit (omega arith) asked-Told
