-- ===== src/Net/Fits.antt =====
-- Which packets are always sent: their coding fits a packet buffer.
use cwnet.Base.{
  ℕ, suc, ◌+◌, ◌*◌, ◌/◌, ◌%◌, ◌≡◌, ◌≤◌, ◌<◌, refl, ap, sym, ◌∙◌, List, [], ◌∷◌, ◌++◌, Option, some,
  true, Bool, length, arith, inl, inr, append_assoc, length-append, pos,
}
use cwnet.Slip.{max_buffer_size}
use cwnet.Slip.Spec.{encode, encode-append, length-encode-le_double}
use cwnet.Packet.{u16}
use cwnet.Net.State.{System, Net}
use cwnet.Net.Laws.{IsFresh}
use cwnet.Net.Build.{udp_datagram}
use cwnet.Net.Frame.{slip_frame}
use cwnet.Net.Send.{HasMemory, IsPacket, Outcome, Sent}
use cwnet.Net.Request.{
  request_packet, data_packet, block_bytes, send_tftp_req_packet-Outcome,
  send_tftp_data_packet-Outcome, length-request,
}
use cwnet.Net.Tftp.{send_tftp_req_packet, send_tftp_data_packet}

-- The headers take twice their length at most when they are coded.
length-encode-packet :
    (sys : System) (tftp packet front payload : List ℕ)
    → IsPacket sys tftp packet
    → udp_datagram tftp ≡ front ++ payload
    → length (encode packet) ≤ 2 * (20 + length front) + length (encode payload)
length-encode-packet sys tftp packet front payload p e =
    let split : packet ≡ (p.header ++ front) ++ payload =
      p.packet_eq ∙ ap (◌++◌ p.header) e ∙ sym (append_assoc p.header front payload) in
    let coded : encode packet ≡ encode (p.header ++ front) ++ encode payload =
      ap encode split ∙ encode-append (p.header ++ front) payload in
    omega (
      arith,
      ap length coded,
      length-append (encode (p.header ++ front)) (encode payload),
      length-encode-le_double (p.header ++ front),
      length-append p.header front,
      p.header_ok.byte_count,
    )

Outcome-short :
    (action : Net → Option (Bool × Net)) (s : Net) (packet : List ℕ)
    → length (encode packet) < max_buffer_size
    → Outcome action s packet
    → (s' : Net) × (action s ≡ some (true, s')) × Sent s s' (slip_frame packet)
Outcome-short action s packet short (inl (fits, sent)) = sent
Outcome-short action s packet short (inr (long, failed)) = absurd (omega arith)

-- With memory for its four Buffers, `send_tftp_data_packet` sends every block whose coding takes at
-- most 959 bytes: a block with no more than 447 bytes that SLIP escapes, for one.
pub send_tftp_data_packet-Sent :
    (sys : System) (s : Net) (blknum : ℕ) (bytes : List ℕ) (from n : ℕ)
    → IsFresh s
    → sys.alloc_ok s.next ≡ true
    → HasMemory sys (suc s.next)
    → from + n ≤ length bytes
    → length (encode (block_bytes bytes from n)) ≤ 959
    → (packet : List ℕ) × IsPacket sys (data_packet (u16 blknum) (block_bytes bytes from n)) packet
      × ((s' : Net) × (send_tftp_data_packet sys blknum bytes from (pos n) s ≡ some (true, s'))
          × Sent s s' (slip_frame packet))
unfolding udp_datagram data_packet
send_tftp_data_packet-Sent sys s blknum bytes from n fresh memory more fits short =
    let (packet, ok, outcome) =
      send_tftp_data_packet-Outcome sys s blknum bytes from n fresh memory more fits in
    let payload = block_bytes bytes from n in
    let tftp = data_packet (u16 blknum) payload in
    let len = length tftp in
    let front =
      0x12
      ∷ 0x67
      ∷ 0
      ∷ 69
      ∷ ((8 + len) / 256)
      ∷ ((8 + len) % 256)
      ∷ 0
      ∷ 0
      ∷ 0
      ∷ 3
      ∷ (u16 blknum / 256)
      ∷ (u16 blknum % 256)
      ∷ [] in
    let bound = length-encode-packet sys tftp packet front payload ok refl in
    (
      packet,
      ok,
      Outcome-short (send_tftp_data_packet sys blknum bytes from (pos n)) s packet
          (omega (arith, bound)) outcome,
    )

-- With memory for its four Buffers, `send_tftp_req_packet` sends the request for every file name
-- that the queue can hold, which has at most 255 bytes.
pub send_tftp_req_packet-Sent :
    (sys : System) (s : Net) (opcode : ℕ) (fname : List ℕ)
    → IsFresh s
    → sys.alloc_ok s.next ≡ true
    → HasMemory sys (suc s.next)
    → opcode < 256
    → length fname ≤ 255
    → (packet : List ℕ) × IsPacket sys (request_packet opcode fname) packet
      × ((s' : Net) × (send_tftp_req_packet sys opcode fname s ≡ some (true, s'))
          × Sent s s' (slip_frame packet))
unfolding udp_datagram
send_tftp_req_packet-Sent sys s opcode fname fresh memory more small short =
    let (packet, ok, outcome) =
      send_tftp_req_packet-Outcome sys s opcode fname fresh memory more small (omega arith) in
    let tftp = request_packet opcode fname in
    let len = length tftp in
    let front = 0x12 ∷ 0x67 ∷ 0 ∷ 69 ∷ ((8 + len) / 256) ∷ ((8 + len) % 256) ∷ 0 ∷ 0 ∷ [] in
    let bound = length-encode-packet sys tftp packet front tftp ok refl in
    (
      packet,
      ok,
      Outcome-short (send_tftp_req_packet sys opcode fname) s packet
          (omega (arith, bound, length-encode-le_double tftp, length-request opcode fname)) outcome,
    )
