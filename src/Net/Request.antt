-- ===== src/Net/Request.antt =====
-- `send_tftp_req_packet` and `send_tftp_data_packet`: the TFTP packets that the program sends.
use cwnet.Base.{
  ℕ, suc, ◌+◌, ◌/◌, ◌%◌, ◌≡◌, ◌≤◌, ◌<◌, refl, ap, ap₂, sym, ◌∙◌, List, [], ◌∷◌, ◌++◌, none, some,
  Bool, true, false, length, arith, take, drop, memcpy, pos, ltb, le→ltb, take_all, length-append,
  length-take, min,
}
use cwnet.Slip.{max_buffer_size, Buffer}
use cwnet.Packet.{ByteOrder, u16, u32}
use cwnet.Packet.Copy.{Holds, memcpy_lem}
use cwnet.Packet.Order.{bytes16-htons}
use cwnet.Net.State.{System, Net, M, ◌>>◌, deref, assign, update}
use cwnet.Net.Laws.{
  IsFresh, Full, run, allocated, fresh_block, fresh_block-size, with_buffer_ok, deref-allocated,
}
use cwnet.Net.Send.{HasMemory, IsPacket, Outcome, Outcome-after, send_tftp_packet-Outcome}
use cwnet.Net.Tftp.{
  send_tftp_packet, send_tftp_req_packet, send_tftp_data_packet, request_bytes, data_header,
  block_size, netascii,
}

module _ (sys : System) (s : Net) where
  -- The state after the new Buffer was written.
  loaded : Buffer → Net
  unfolding allocated
  loaded r = record s { cell = update (allocated sys s).cell s.next (some r); next = suc s.next }

  loaded_lem : (r : Buffer) (k : M Bool) → (assign s.next r >> k) (allocated sys s) ≡ k (loaded r)
  unfolding assign loaded allocated
  loaded_lem r k = ground arith

  loaded-Full : (r : Buffer) (bytes : List ℕ) → Holds r bytes → Full (loaded r) s.next bytes
  unfolding loaded
  loaded-Full r bytes h = record { block = r; found = ground arith; holds = h }

  loaded-IsFresh : (r : Buffer) → IsFresh s → IsFresh (loaded r)
  unfolding loaded allocated
  loaded-IsFresh r fresh a h = ground (arith, fresh a (omega arith))

  -- Sending the packet that was written.
  send_loaded :
      (r : Buffer) (tftp : List ℕ)
      → IsFresh s
      → HasMemory sys (suc s.next)
      → Holds r tftp
      → 28 + length tftp ≤ max_buffer_size
      → (packet : List ℕ) × IsPacket sys tftp packet
        × Outcome (send_tftp_packet sys s.next true) (loaded r) packet
  unfolding loaded
  send_loaded r tftp fresh memory h fits =
      send_tftp_packet-Outcome sys (loaded r) s.next tftp (loaded-IsFresh r fresh) memory
        (loaded-Full r tftp h) fits

-- The bytes of a request under either byte order: opcode, file name, NUL, mode, NUL.
unfoldable pub request_packet : ℕ → List ℕ → List ℕ
request_packet opcode fname = 0 ∷ opcode ∷ (fname ++ 0 ∷ netascii)

request_bytes_lem :
    (order : ByteOrder) (opcode : ℕ) (fname : List ℕ)
    → opcode < 256
    → request_bytes order opcode fname ≡ request_packet opcode fname
unfolding request_bytes request_packet
request_bytes_lem order opcode fname h =
    let high : opcode / 256 ≡ 0 = omega arith in
    let low : opcode % 256 ≡ opcode = omega arith in
    rw (bytes16-htons order opcode (omega arith), high, low)

pub length-request :
    (opcode : ℕ) (fname : List ℕ) → length (request_packet opcode fname) ≡ length fname + 12
unfolding request_packet
length-request opcode fname = omega (arith, length-append fname (0 ∷ netascii))

-- The bytes of a data packet.
unfoldable pub data_packet : ℕ → List ℕ → List ℕ
data_packet blknum payload = 0 ∷ 3 ∷ (blknum / 256) ∷ (blknum % 256) ∷ payload

data_header_lem :
    (order : ByteOrder) (blknum : ℕ)
    → data_header order (u16 blknum) ≡ 0 ∷ 3 ∷ (u16 blknum / 256) ∷ (u16 blknum % 256) ∷ []
unfolding data_header
data_header_lem order blknum =
    rw (bytes16-htons order 3 (omega arith), bytes16-htons order (u16 blknum) (omega arith))

data_packet_lem :
    (order : ByteOrder) (blknum : ℕ) (payload : List ℕ)
    → data_header order (u16 blknum) ++ payload ≡ data_packet (u16 blknum) payload
unfolding data_packet
data_packet_lem order blknum payload = rw (data_header_lem order blknum)

length-data_packet :
    (blknum : ℕ) (payload : List ℕ) → length (data_packet blknum payload) ≡ length payload + 4
unfolding data_packet
length-data_packet blknum payload = omega arith

block_size-pos : (n : ℕ) → block_size (pos n) ≡ min n 512
unfolding block_size
block_size-pos n = ground arith

-- A request packet is written to its Buffer.
write_request-Holds :
    (sys : System) (s : Net) (opcode : ℕ) (fname : List ℕ)
    → opcode < 256
    → length fname + 12 ≤ max_buffer_size
    → (out : List ℕ) × (memcpy
          (fresh_block sys s).b_addr
          0
          (request_bytes sys.order opcode fname)
          0
          (length (request_bytes sys.order opcode fname))
        ≡ some out)
      × Holds (record { b_addr = out; b_size = length fname + 12 }) (request_packet opcode fname)
write_request-Holds sys s opcode fname small fits =
    let bytes = request_bytes sys.order opcode fname in
    let e = request_bytes_lem sys.order opcode fname small in
    let n = length-request opcode fname in
    let size : length bytes ≡ length fname + 12 = ap length e ∙ n in
    let (out, copy, same, front) =
      memcpy_lem (fresh_block sys s).b_addr 0 bytes 0 (length bytes)
        (omega (arith, fresh_block-size sys s)) (omega arith) in
    let from_zero : 0 + length bytes ≡ length fname + 12 = omega arith in
    (
      out,
      copy,
      record {
        block = record { block_size = same ∙ fresh_block-size sys s; in_use = fits };
        bytes_eq =
            ap (λ k. take k out) (sym from_zero)
            ∙ front
            ∙ take_all (length bytes) bytes (omega arith)
            ∙ e;
      },
    )

-- With memory for its four Buffers, `send_tftp_req_packet` sends a request for a file name of up to
-- 984 bytes and an opcode below 256 (opcode, name and the mode NETASCII, each string with its NUL);
-- or it sends nothing and reports an overflow, where the coding of the packet does not fit a packet
-- buffer.
pub send_tftp_req_packet-Outcome :
    (sys : System) (s : Net) (opcode : ℕ) (fname : List ℕ)
    → IsFresh s
    → sys.alloc_ok s.next ≡ true
    → HasMemory sys (suc s.next)
    → opcode < 256
    → length fname ≤ 984
    → (packet : List ℕ) × IsPacket sys (request_packet opcode fname) packet
      × Outcome (send_tftp_req_packet sys opcode fname) s packet
unfolding send_tftp_req_packet loaded
send_tftp_req_packet-Outcome sys s opcode fname fresh memory more small fits =
    let (out, copy, h) = write_request-Holds sys s opcode fname small (omega arith) in
    let r : Buffer = record { b_addr = out; b_size = length fname + 12 } in
    let (packet, ok, rest) =
      send_loaded sys s r (request_packet opcode fname) fresh more h
        (omega (arith, length-request opcode fname)) in
    let guard : ltb max_buffer_size (length fname + 12) ≡ false = le→ltb _ _ (omega arith) in
    (
      packet,
      ok,
      Outcome-after packet (send_tftp_req_packet sys opcode fname)
          (send_tftp_packet sys s.next true)
          (rw guard (
            with_buffer_ok sys false _ s memory
            ∙ run (deref s.next) _ (allocated sys s) (deref-allocated sys s)
            ∙ rw copy (loaded_lem sys s r (send_tftp_packet sys s.next true))))
          refl rest,
    )

-- The bytes of a block: at most 512 of those that are left in the buffer.
abbrev pub block_bytes : List ℕ → ℕ → ℕ → List ℕ
block_bytes bytes from n = take (min n 512) (drop from bytes)

write_data-Holds :
    (sys : System) (s : Net) (blknum : ℕ) (bytes : List ℕ) (from n : ℕ)
    → from + n ≤ length bytes
    → (one two : List ℕ) × (memcpy
          (fresh_block sys s).b_addr
          0
          (data_header sys.order (u16 blknum))
          0
          4
        ≡ some one)
      × (memcpy one 4 bytes from (block_size (pos n)) ≡ some two)
      × Holds
          (record { b_addr = two; b_size = u32 (block_size (pos n) + 4) })
          (data_packet (u16 blknum) (block_bytes bytes from n))
write_data-Holds sys s blknum bytes from n fits =
    let header = data_header sys.order (u16 blknum) in
    let e = data_header_lem sys.order blknum in
    let k = block_size-pos n in
    let (one, copy, same, front) =
      memcpy_lem (fresh_block sys s).b_addr 0 header 0 4 (omega (arith, fresh_block-size sys s))
        (omega (arith, ap length e)) in
    let (two, copy', same', front') =
      memcpy_lem one 4 bytes from (block_size (pos n)) (omega (arith, fresh_block-size sys s))
        (omega arith) in
    let total : u32 (block_size (pos n) + 4) ≡ 4 + block_size (pos n) = omega arith in
    let four : 0 + 4 ≡ 4 = omega arith in
    let start : take 4 one ≡ header =
      ap (λ i. take i one) (sym four) ∙ front ∙ take_all 4 header (omega (arith, ap length e)) in
    (
      one,
      two,
      copy,
      copy',
      record {
        block = record { block_size = same' ∙ same ∙ fresh_block-size sys s; in_use = omega arith };
        bytes_eq =
            ap (λ i. take i two) total
            ∙ front'
            ∙ ap₂ ◌++◌ start (ap (λ i. take i (drop from bytes)) k)
            ∙ data_packet_lem sys.order blknum (block_bytes bytes from n);
      },
    )

-- With memory for its four Buffers, and with as many bytes in the caller's block as are to be sent,
-- `send_tftp_data_packet` sends a data packet with the block number's low 16 bits and the next
-- bytes of the buffer, at most 512 of them; or it sends nothing and reports an overflow, where the
-- coding of the packet does not fit a packet buffer.
pub send_tftp_data_packet-Outcome :
    (sys : System) (s : Net) (blknum : ℕ) (bytes : List ℕ) (from n : ℕ)
    → IsFresh s
    → sys.alloc_ok s.next ≡ true
    → HasMemory sys (suc s.next)
    → from + n ≤ length bytes
    → (packet : List ℕ) × IsPacket sys (data_packet (u16 blknum) (block_bytes bytes from n)) packet
      × Outcome (send_tftp_data_packet sys blknum bytes from (pos n)) s packet
unfolding send_tftp_data_packet loaded
send_tftp_data_packet-Outcome sys s blknum bytes from n fresh memory more fits =
    let (one, two, copy, copy', h) = write_data-Holds sys s blknum bytes from n fits in
    let r : Buffer = record { b_addr = two; b_size = u32 (block_size (pos n) + 4) } in
    let payload = block_bytes bytes from n in
    let (packet, ok, rest) = send_loaded sys s r (data_packet (u16 blknum) payload) fresh more h (
      omega (
        arith,
        length-data_packet (u16 blknum) payload,
        length-take (min n 512) (drop from bytes),
      )) in
    (
      packet,
      ok,
      Outcome-after packet (send_tftp_data_packet sys blknum bytes from (pos n))
          (send_tftp_packet sys s.next true)
          (with_buffer_ok sys false _ s memory
            ∙ run (deref s.next) _ (allocated sys s) (deref-allocated sys s)
            ∙ rw (copy, copy') (loaded_lem sys s r (send_tftp_packet sys s.next true)))
          refl rest,
    )

-- With memory for its first Buffer and a pointer that is not followed by as many bytes as are to be
-- sent, the copy of `send_tftp_data_packet` leaves the caller's block.
pub send_tftp_data_packet_overrun :
    (sys : System) (s : Net) (blknum : ℕ) (bytes : List ℕ) (from n : ℕ)
    → sys.alloc_ok s.next ≡ true
    → length bytes < from + min n 512
    → send_tftp_data_packet sys blknum bytes from (pos n) s ≡ none
unfolding send_tftp_data_packet memcpy
send_tftp_data_packet_overrun sys s blknum bytes from n memory short =
    with_buffer_ok sys false _ s memory
    ∙ run (deref s.next) _ (allocated sys s) (deref-allocated sys s)
    ∙ ground (
      arith,
      block_size-pos n,
      fresh_block-size sys s,
      ap length (data_header_lem sys.order blknum),
    )
