-- ===== src/SlipClient/Command.antt =====
-- slip.c: `main`, which sends one write request over a socket.
use cwnet.Base.{
  ℕ, ◌+◌, ◌-◌, ◌≡◌, List, [], ◌∷◌, ◌++◌, Option, none, some, Bool, true, false, inl, inr,
  Bool-cases, if◌then◌else◌, ◌&&◌, ◌>>=◌, length, length-append, arith,
}
use cwnet.Slip.Spec.{length-encode-le_double}
use cwnet.Packet.{ByteOrder}
use cwnet.Packet.Headers.{IsIpHeader}
use cwnet.Net.Build.{udp_datagram}
use cwnet.Net.Frame.{slip_frame}
use cwnet.SlipClient.{send_packet, max_pkt_size}
use cwnet.SlipClient.Send.{send_packet-Framed}

-- Whether `socket` and `connect` succeed, and whether `send` does for these bytes.
pub record SocketCalls : Type 0 where
  pub made : Bool
  pub connected : Bool
  pub takes : List ℕ → Bool

-- The sockets that are open, and what was given to `send`.
pub record Connection : Type 0 where
  pub sockets : ℕ
  pub sent : List (List ℕ)

-- "\x00\x02hello.txt\x00NETASCII" with its NUL
abbrev pub wrq : List ℕ
wrq =
    0 ∷ 2 ∷ b'h' ∷ b'e' ∷ b'l' ∷ b'l' ∷ b'o' ∷ b'.' ∷ b't' ∷ b'x' ∷ b't' ∷ 0 ∷ b'N' ∷ b'E' ∷ b'T'
    ∷ b'A' ∷ b'S' ∷ b'C' ∷ b'I' ∷ b'I' ∷ 0 ∷ []

-- What `send_packet` returns, with its call of `send`: is it an error?
unfoldable pub give_to_send : SocketCalls → Option (List ℕ) → Connection → Bool × Connection
give_to_send calls none c = (true, c)
give_to_send calls (some frame) c =
    (if calls.takes frame then false else true, record c { sent = c.sent ++ frame ∷ [] })

-- The branch with a connection.
unfoldable pub send_request :
    ByteOrder → SocketCalls → List ℕ → Connection → Option (Bool × Connection)
unfolding give_to_send
send_request order calls buffer c = do
  packet ← send_packet order buffer wrq
  some (give_to_send calls packet c)

-- The branch with a socket, which is closed at its end.
unfoldable pub connect_and_send :
    ByteOrder → SocketCalls → List ℕ → Connection → Option (ℕ × Connection)
unfolding send_request
connect_and_send order calls buffer c = do
  let talked = send_request order calls buffer c
  result ← if calls.connected then talked else some (true, c)
  some (if result.0 then 1 else 0, record result.1 { sockets = result.1.sockets - 1 })

-- `main`: its status, for the array of `send_packet` as it finds it.
unfoldable pub slip : ByteOrder → SocketCalls → List ℕ → Connection → Option (ℕ × Connection)
unfolding connect_and_send
slip order calls buffer c =
    let rest = connect_and_send order calls buffer (record c { sockets = c.sockets + 1 }) in
    if calls.made then rest else some (1, c)

-- How the command ends if `frame` is the frame of its packet.
abbrev pub ended : SocketCalls → List ℕ → Connection → ℕ × Connection
ended calls frame c = (
  if calls.made && calls.connected && calls.takes frame then 0 else 1,
  record c { sent = if calls.made && calls.connected then c.sent ++ frame ∷ [] else c.sent },
)

request_framed :
    (order : ByteOrder) (buffer : List ℕ)
    → length buffer ≡ max_pkt_size
    → (header : List ℕ) × IsIpHeader order 29 header
      × (send_packet order buffer wrq ≡ some (some (slip_frame (header ++ udp_datagram wrq))))
unfolding udp_datagram
request_framed order buffer size =
    let (header, ok, sent) = send_packet-Framed order buffer wrq size (omega arith) in
    let count = length-append header (udp_datagram wrq) in
    let double = length-encode-le_double (header ++ udp_datagram wrq) in
    elim sent [
      | inl (fits, run) ↦ (header, ok, run)
      | inr (full, run) ↦ absurd (omega (arith, count, double, full, ok.byte_count))
    ]

-- Whatever `socket`, `connect` and `send` return, under either byte order, slip closes the socket
-- that it has opened, gives `send` the frame of the one IP packet with its request exactly if there
-- is a connection, and returns 0 exactly if `send` took it.
pub slip-ended :
    (order : ByteOrder) (calls : SocketCalls) (buffer : List ℕ) (c : Connection)
    → length buffer ≡ max_pkt_size
    → (header : List ℕ) × IsIpHeader order 29 header
      × (slip order calls buffer c ≡ some (ended calls (slip_frame (header ++ udp_datagram wrq)) c))
unfolding slip
slip-ended order calls buffer c size =
    let (header, ok, run) = request_framed order buffer size in
    let closed : c.sockets + 1 - 1 ≡ c.sockets = omega arith in
    (
      header,
      ok,
      elim (Bool-cases calls.made) [
        | inl made ↦ elim (Bool-cases calls.connected) [
          | inl connected ↦
              elim (Bool-cases (calls.takes (slip_frame (header ++ udp_datagram wrq)))) [
                | inl takes ↦ rw (made, connected, run, takes, closed)
                | inr refuses ↦ rw (made, connected, run, refuses, closed)
              ]
          | inr alone ↦ rw (made, alone, closed)
        ]
        | inr unmade ↦ rw unmade
      ],
    )
