-- ===== src/Minitftp/Packets.antt =====
-- minitftp.c: `get_basename`, the packets that `send_req_packet` and `send_data_packet` write to
-- their array, and `get_opcode` and `get_blknum`.
use cwnet.Base.{
  ℕ, ◌+◌, ◌-◌, ◌≤◌, ◌≡◌, ap, ◌∙◌, sym, List, [], ◌∷◌, ◌++◌, Option, none, some, if◌then◌else◌, ◌==◌,
  length, take, memcpy, ◌>>=◌, arith, length-append, append_assoc, refl, take_all, ltb, le→ltb, ◌<◌,
  lt→ltb,
}
use cwnet.Protocol.{op_data, tftp_max_data_size}
use cwnet.Packet.{ByteOrder, bytes16, htons, ntohs, load16}
use cwnet.Packet.Copy.{memcpy_lem}
use cwnet.Packet.Order.{length-bytes16}
use cwnet.Net.Tftp.{netascii, request_bytes, data_header}

abbrev pub max_pkt_size : ℕ
max_pkt_size = 1024

-- What stands behind the last slash: `base` is where the name starts as far as it has been read.
basename_from : List ℕ → List ℕ → List ℕ
basename_from base [] = base
basename_from base (c ∷ cs) = basename_from (if c == b'/' then cs else base) cs

unfoldable pub get_basename : List ℕ → List ℕ
unfolding basename_from
get_basename fname = basename_from fname fname

unfoldable pub request_packet : ByteOrder → List ℕ → ℕ → List ℕ → Option (List ℕ)
request_packet order pktbuf opcode fname = do
  with_opcode ← memcpy pktbuf 0 (bytes16 order (htons order opcode)) 0 2
  with_name ← memcpy with_opcode 2 (fname ++ 0 ∷ []) 0 (length fname + 1)
  filled ← memcpy with_name (2 + (length fname + 1)) netascii 0 9
  some (take (length fname + 12) filled)

-- The inner `none` is the result -1 for a block that is too long.
unfoldable pub data_packet : ByteOrder → List ℕ → List ℕ → ℕ → ℕ → Option (Option (List ℕ))
data_packet order pktbuf bytes blknum datalen = do
  with_opcode ← memcpy pktbuf 0 (bytes16 order (htons order op_data)) 0 2
  with_header ← memcpy with_opcode 2 (bytes16 order (htons order blknum)) 0 2
  let filled = memcpy with_header 4 bytes 0 datalen
  let sent = filled >>= λ packet. some (some (take (datalen + 4) packet))
  if ltb tftp_max_data_size datalen then some none else sent

unfoldable pub get_opcode : ByteOrder → List ℕ → Option ℕ
get_opcode order pkt = elim (load16 order pkt 0) [ none ↦ none | some w ↦ some (ntohs order w) ]

unfoldable pub get_blknum : ByteOrder → List ℕ → Option ℕ
get_blknum order pkt = elim (load16 order pkt 2) [ none ↦ none | some w ↦ some (ntohs order w) ]

-- A whole array copied to the start of another, or behind what was copied before.
append_copy :
    (dst src front : List ℕ) (to n : ℕ)
    → take to dst ≡ front
    → n ≡ length src
    → to + n ≤ length dst
    → (out : List ℕ) × (memcpy dst to src 0 n ≡ some out)
      × (length out ≡ length dst)
      × (take (to + n) out ≡ front ++ src)
append_copy dst src front to n before size room =
    let (out, run, same, filled) = memcpy_lem dst to src 0 n room (omega arith) in
    (
      out,
      run,
      same,
      filled ∙ ap (λ t. t ++ take n src) before ∙ ap (◌++◌ front) (take_all n src (omega arith)),
    )

-- A request for a name of at most 1012 bytes stays within the packet's array, and is what
-- `send_tftp_req_packet` of netio.c sends.
pub request_packet-request_bytes :
    (order : ByteOrder) (pktbuf : List ℕ) (opcode : ℕ) (fname : List ℕ)
    → length pktbuf ≡ max_pkt_size
    → length fname ≤ max_pkt_size - 12
    → request_packet order pktbuf opcode fname ≡ some (request_bytes order opcode fname)
unfolding request_packet request_bytes
request_packet-request_bytes order pktbuf opcode fname size short =
    let op = bytes16 order (htons order opcode) in
    let name = fname ++ 0 ∷ [] in
    let (a, run₁, same₁, front₁) =
      append_copy pktbuf op [] 0 2 refl (sym (length-bytes16 order (htons order opcode)))
        (omega arith) in
    let (b, run₂, same₂, front₂) =
      append_copy a name op 2 (length fname + 1) front₁
        (omega (arith, length-append fname (0 ∷ []))) (omega arith) in
    let (c, run₃, same₃, front₃) =
      append_copy b netascii (op ++ name) (2 + (length fname + 1)) 9 front₂ refl (omega arith) in
    let e : length fname + 12 ≡ 2 + (length fname + 1) + 9 = omega arith in
    rw (run₁, run₂, run₃)
      (ap some (
        ap (λ n. take n c) e
        ∙ front₃
        ∙ append_assoc op name netascii
        ∙ ap (◌++◌ op) (append_assoc fname (0 ∷ []) netascii)))

-- The opcode and the block number at the front of the packet's array.
header_copied :
    (order : ByteOrder) (pktbuf : List ℕ) (blknum : ℕ)
    → length pktbuf ≡ max_pkt_size
    → (a b : List ℕ) × (memcpy pktbuf 0 (bytes16 order (htons order op_data)) 0 2 ≡ some a)
      × (memcpy a 2 (bytes16 order (htons order blknum)) 0 2 ≡ some b)
      × (length b ≡ max_pkt_size)
      × (take 4 b ≡ data_header order blknum)
unfolding data_header
header_copied order pktbuf blknum size =
    let op = bytes16 order (htons order op_data) in
    let blk = bytes16 order (htons order blknum) in
    let (a, run₁, same₁, front₁) =
      append_copy pktbuf op [] 0 2 refl (sym (length-bytes16 order (htons order op_data)))
        (omega arith) in
    let (b, run₂, same₂, front₂) =
      append_copy a blk op 2 2 front₁ (sym (length-bytes16 order (htons order blknum)))
        (omega arith) in
    (a, b, run₁, run₂, same₂ ∙ same₁ ∙ size, front₂)

-- A data packet of at most 512 bytes stays within the packet's array, and its contents are those
-- that `send_tftp_data_packet` of netio.c sends.
pub data_packet-data_header :
    (order : ByteOrder) (pktbuf bytes : List ℕ) (blknum datalen : ℕ)
    → length pktbuf ≡ max_pkt_size
    → datalen ≤ tftp_max_data_size
    → datalen ≤ length bytes
    → data_packet order pktbuf bytes blknum datalen
      ≡ some (some (data_header order blknum ++ take datalen bytes))
unfolding data_packet
data_packet-data_header order pktbuf bytes blknum datalen size small inside =
    let (a, b, run₁, run₂, room, front) = header_copied order pktbuf blknum size in
    let (c, run₃, same, filled) = memcpy_lem b 4 bytes 0 datalen (omega arith) (omega arith) in
    let e : datalen + 4 ≡ 4 + datalen = omega arith in
    rw (run₁, run₂, run₃, le→ltb tftp_max_data_size datalen small)
      (ap (λ t. some (some t))
        (ap (λ n. take n c) e ∙ filled ∙ ap (λ t. t ++ take datalen bytes) front))

-- A longer block is refused, with nothing copied.
pub data_packet_long :
    (order : ByteOrder) (pktbuf bytes : List ℕ) (blknum datalen : ℕ)
    → length pktbuf ≡ max_pkt_size
    → tftp_max_data_size < datalen
    → data_packet order pktbuf bytes blknum datalen ≡ some none
unfolding data_packet
data_packet_long order pktbuf bytes blknum datalen size long =
    let (a, b, run₁, run₂, room, front) = header_copied order pktbuf blknum size in
    rw (run₁, run₂, lt→ltb tftp_max_data_size datalen long)
