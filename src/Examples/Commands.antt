-- ===== src/Examples/Commands.antt =====
-- minitftp on a host with one file of three bytes and a server that acknowledges everything, and
-- the functions of slip.c.
use cwnet.Base.{
  Option, none, ◌⊎◌, ◌∙◌, ℕ, zero, suc, ◌>>=◌, ◌/◌, ◌%◌, ◌^◌, ◌≡◌, ◌<◌, ◌≤◌, refl, ap, sym, List,
  [], ◌∷◌, ◌++◌, some, true, arith, length, take, drop, if◌then◌else◌, ◌==◌, length-take,
  take-append-drop, drop_all, subst, some-eq,
}
use cwnet.Packet.{big_endian, bytes16, htons}
use cwnet.Net.Tftp.{request_bytes, data_header}
use cwnet.Minitftp.Host.{waits, done, Host, Locals}
use cwnet.Minitftp.Packets.{get_basename, max_pkt_size}
use cwnet.Minitftp.Contract.{Lawful, View, Handle, in_file, udp_socket, address_list}
use cwnet.Minitftp.Command.{main}
use cwnet.Minitftp.Whole.{Ended, main-Ended}
use cwnet.Minitftp.Served.{Serves}
use cwnet.Minitftp.Delivery.{main_delivers}
use cwnet.Minitftp.Receiver.{receive}
use cwnet.Slip.{Buffer, slip_encode_buffer}
use cwnet.Packet.Headers.{IsIpHeader}
use cwnet.Net.Build.{udp_datagram}
use cwnet.SlipClient.{send_packet, copy_and_encode_data}
use cwnet.SlipClient.Send.{Framed, send_packet-Framed}
use cwnet.SlipClient.Agreement.{as_copy, copy_and_encode_data-slip_encode_buffer}
use cwnet.Examples.{zeros, length-zeros}

record Machine : Type 0 where
  remaining : List ℕ
  sent : List (List ℕ)
  held : List Handle
  due : List ℕ

-- The acknowledgement of a packet.
abbrev reply : List ℕ → List ℕ
reply (a ∷ b ∷ hi ∷ lo ∷ rest) = if b == 3 then 0 ∷ 4 ∷ hi ∷ lo ∷ [] else 0 ∷ 4 ∷ 0 ∷ 0 ∷ []
reply packet = 0 ∷ 4 ∷ 0 ∷ 0 ∷ []

abbrev later : List Handle → List Handle
later [] = []
later (h ∷ hs) = hs

abbrev file : List ℕ
file = 5 ∷ 6 ∷ 7 ∷ []

abbrev sent_off : List ℕ → Machine → Machine
sent_off packet s = record s { sent = s.sent ++ packet ∷ []; due = reply packet }

-- Without a packet that is due, `recvfrom` waits for ever.
abbrev receive_due : ℕ → List ℕ → Machine → Option (Option (List ℕ) × Machine)
receive_due n [] s = none
receive_due n (b ∷ bs) s = some (some (take n (b ∷ bs)), record s { due = [] })

abbrev unix : Host
unix = record {
  State = Machine;
  order = big_endian;
  stack = λ n s. zeros n;
  length-stack = λ n s. length-zeros n;
  open_file = λ name s. (true, record s { remaining = file; held = in_file ∷ s.held });
  socket = λ s. (true, record s { held = udp_socket ∷ s.held });
  getaddrinfo = λ node service s. (true, record s { held = address_list ∷ s.held });
  read = λ n s. (some (take n s.remaining), record s { remaining = drop n s.remaining });
  sendto = λ packet s. (true, sent_off packet s);
  recvfrom = λ n s. receive_due n s.due s;
  freeaddrinfo = λ s. record s { held = later s.held };
  close_socket = λ s. record s { held = later s.held };
  close_file = λ s. record s { held = later s.held };
}

length-take_le : (n : ℕ) (xs : List ℕ) → length (take n xs) ≤ n
length-take_le n xs = omega (arith, length-take n xs)

short_take : (n : ℕ) (xs : List ℕ) → length (take n xs) < n → drop n xs ≡ []
short_take n xs h = drop_all n xs (omega (arith, length-take n xs))

some-take :
    (n : ℕ) (xs bytes : List ℕ)
    → some (take n xs) ≡ some bytes
    → (length bytes ≤ n) × (xs ≡ bytes ++ drop n xs) × (length bytes < n → drop n xs ≡ [])
some-take n xs bytes e =
    subst (λ b. (length b ≤ n) × (xs ≡ b ++ drop n xs) × (length b < n → drop n xs ≡ []))
      (some-eq e) (length-take_le n xs, sym (take-append-drop n xs), short_take n xs)

abbrev view_of : Machine → View
view_of s = record { remaining = s.remaining; sent = s.sent; held = s.held }

due_received :
    (n : ℕ) (due : List ℕ) (s s' : Machine) (r : Option (List ℕ))
    → receive_due n due s ≡ some (r, s')
    → (view_of s' ≡ view_of s) × ((bytes : List ℕ) → r ≡ some bytes → length bytes ≤ n)
due_received n [] s s' r e = cc e
due_received n (b ∷ bs) s s' r e =
    let same = some-eq e in
    (
      ap (λ (t : Option (List ℕ) × Machine). view_of t.1) (sym same),
      λ bytes got.
          (some-take n (b ∷ bs) bytes (ap (λ (t : Option (List ℕ) × Machine). t.0) same ∙ got)).0,
    )

abbrev unix-Lawful : Lawful unix
unix-Lawful = record {
  view = view_of;
  content = λ name. file;
  open_file_lem = λ name s. refl;
  socket_lem = λ s. refl;
  getaddrinfo_lem = λ node service s. refl;
  read_sent = λ n s. refl;
  read_held = λ n s. refl;
  read_some = λ n s bytes e. some-take n s.remaining bytes e;
  sendto_lem = λ packet s. refl;
  recvfrom_lem = λ n s s' r e. (due_received n s.due s s' r e).0;
  recvfrom_some = λ n s s' bytes e. (due_received n s.due s s' (some bytes) e).1 bytes refl;
  freeaddrinfo_lem =
      λ s rest e. ap (λ h. record { remaining = s.remaining; sent = s.sent; held = later h }) e;
  close_socket_lem =
      λ s rest e. ap (λ h. record { remaining = s.remaining; sent = s.sent; held = later h }) e;
  close_file_lem =
      λ s rest e. ap (λ h. record { remaining = s.remaining; sent = s.sent; held = later h }) e;
}

reply-data_header :
    (n : ℕ) (bytes : List ℕ)
    → n < 2 ^ 16
    → reply (data_header big_endian n ++ bytes) ≡ 0 ∷ 4 ∷ n / 256 ∷ n % 256 ∷ []
unfolding data_header bytes16 htons
reply-data_header n bytes h = ground arith

reply-request_bytes : (name : List ℕ) → reply (request_bytes big_endian 2 name) ≡ 0 ∷ 4 ∷ 0 ∷ 0 ∷ []
unfolding request_bytes bytes16 htons
reply-request_bytes [] = refl
reply-request_bytes (a ∷ []) = refl
reply-request_bytes (a ∷ b ∷ rest) = refl

abbrev unix-Serves : Serves unix
unix-Serves = record {
  opens = λ name s. refl;
  has_socket = λ s. refl;
  resolves = λ node service s. refl;
  reads = λ n s. (take n s.remaining, refl);
  sends = λ packet s. refl;
  accepts = λ name s. (
    record (sent_off (request_bytes big_endian 2 name) s) { due = [] },
    ap (λ r. receive_due max_pkt_size r (sent_off (request_bytes big_endian 2 name) s))
        (reply-request_bytes name),
  );
  acknowledges = λ n bytes s h. (
    record (sent_off (data_header big_endian n ++ bytes) s) { due = [] },
    ap (λ r. receive_due max_pkt_size r (sent_off (data_header big_endian n ++ bytes) s))
        (reply-data_header n bytes h),
  );
}

abbrev fresh : Machine
fresh = record { remaining = []; sent = []; held = []; due = [] }

abbrev path : List ℕ
path = b'd' ∷ b'/' ∷ b'f' ∷ []

main-Ended_example :
    (main unix 1 [] [] path fresh ≡ waits)
    ⊎ ((status : ℕ) × (l' : Locals Machine) × (main unix 1 [] [] path fresh ≡ done (status, l'))
        × Ended unix unix-Lawful path fresh status l')
main-Ended_example = main-Ended unix unix-Lawful 1 [] [] path fresh (omega arith)

main_delivers_example :
    (l' : Locals Machine) × (packets : List (List ℕ)) × (main unix 1 [] [] path fresh
      ≡ done (0, l'))
    × (l'.world.sent ≡ [] ++ request_bytes big_endian 2 (get_basename path) ∷ packets)
    × (receive 1 packets ≡ some file)
unfolding get_basename
main_delivers_example =
    main_delivers unix unix-Lawful unix-Serves 1 [] [] path fresh (omega arith) (omega arith)

-- The array of `send_packet`.
pub filled : ℕ → List ℕ
filled zero = []
filled (suc n) = 7 ∷ filled n

pub length-filled : (n : ℕ) → length (filled n) ≡ n
unfolding filled
length-filled zero = refl
length-filled (suc n) = ap suc (length-filled n)

send_packet_example :
    (header : List ℕ) × IsIpHeader big_endian 11 header
    × Framed (send_packet big_endian (filled 65535) file) (header ++ udp_datagram file)
send_packet_example =
    send_packet-Framed big_endian (filled 65535) file (length-filled 65535) (omega arith)

abbrev two_bytes : Buffer
two_bytes = record { b_addr = 1 ∷ 0xc0 ∷ []; b_size = 2 }

abbrev packet_buffer : Buffer
packet_buffer = record { b_addr = filled 1024; b_size = 0 }

copy_and_encode_data_example :
    copy_and_encode_data (filled 1024) 0 (1 ∷ 0xc0 ∷ []) 1024 2
    ≡ (slip_encode_buffer packet_buffer two_bytes >>= λ r. some (as_copy r))
copy_and_encode_data_example = copy_and_encode_data-slip_encode_buffer packet_buffer two_bytes
