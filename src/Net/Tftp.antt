-- ===== src/Net/Tftp.antt =====
-- The packets of netio.c on the heap: UDP, IP, SLIP and TFTP.
use cwnet.Base.{
  ℕ, ◌+◌, ◌-◌, ◌^◌, List, [], ◌∷◌, ◌++◌, Option, none, some, Bool, true, false, if◌then◌else◌, ◌==◌,
  length, ℤ, pos, negsuc, ltb, memcpy, store, exceeds,
}
use cwnet.Protocol.{tftp_max_data_size, op_data}
use cwnet.Slip.{
  Buffer, max_buffer_size, slip_encode_buffer, slip_decode_buffer, slip_end, error_buffer_overflow,
}
use cwnet.Packet.{
  ByteOrder, put_packet, get_payload, udp_bytes, udp_header, ip_bytes, ip_header, u32, u16,
  udp_hdr_len, ip_hdr_len, bytes16, htons, ntohs, load16,
}
use cwnet.Net.State.{
  System, M, ◌>>=◌, ◌>>◌, pure, lift, set_errno, deref, assign, delete_buffer, with_buffer,
  send_slip_frame, recv_slip_frame, SerialRequest,
}

-- "NETASCII" and its NUL
abbrev pub netascii : List ℕ
netascii = 78 ∷ 69 ∷ 84 ∷ 65 ∷ 83 ∷ 67 ∷ 73 ∷ 73 ∷ 0 ∷ []

-- g_netio_errno set, and NULL returned.
abbrev pub null_with : ℕ → M (Option ℕ)
null_with e = set_errno e >> pure none

abbrev pub false_with : ℕ → M Bool
false_with e = set_errno e >> pure false

-- What a request packet holds. The file name is a C string, here without its NUL.
unfoldable pub request_bytes : ByteOrder → ℕ → List ℕ → List ℕ
unfolding bytes16 htons
request_bytes order opcode fname = bytes16 order (htons order opcode) ++ (fname ++ 0 ∷ netascii)

unfoldable pub data_header : ByteOrder → ℕ → List ℕ
unfolding bytes16 htons
data_header order blknum = bytes16 order (htons order op_data) ++ bytes16 order (htons order blknum)

-- `nbytes` cut to TFTP_MAX_DATA_SIZE, as a size_t: a negative number is a huge one.
unfoldable pub block_size : ℤ → ℕ
block_size nbytes =
    if exceeds nbytes tftp_max_data_size
    then tftp_max_data_size
    else elim nbytes [ pos n ↦ n | negsuc n ↦ 2 ^ 32 - 1 - n ]

-- The end-of-frame marker behind the coding, if there is room.
unfoldable pub add_slip_end : ℕ → M (Option ℕ)
add_slip_end a = do
  f ← deref a
  if ltb f.b_size max_buffer_size
      then (do
        marked ← lift (store f.b_addr f.b_size slip_end)
        assign a (record { b_addr = marked; b_size = f.b_size + 1 })
        set_errno 0
        pure (some a))
      else null_with error_buffer_overflow

abbrev pub get_errno : M ℕ
get_errno s = some (s.errno, s)

-- `if (p == NULL) return DOSFALSE;` and then `body p`.
abbrev pub unless_null : Option ℕ → (ℕ → M Bool) → M Bool
unless_null none body = pure false
unless_null (some a) body = body a

unfoldable pub get_serial : M SerialRequest
get_serial s = some (s.sreq, s)

module _ (sys : System) where
  unfoldable pub create_udp_packet : ℕ → M (Option ℕ)
  create_udp_packet payload = do
    d ← deref payload
    if ltb max_buffer_size (u32 (udp_hdr_len + d.b_size))
        then null_with error_buffer_overflow
        else with_buffer sys none λ a. do
          pkt ← deref a
          filled ← lift (put_packet (udp_bytes sys.order (udp_header sys.order d.b_size)) pkt d)
          assign a filled
          set_errno 0
          pure (some a)

  unfoldable pub create_ip_packet : ℕ → M (Option ℕ)
  create_ip_packet payload = do
    d ← deref payload
    if ltb max_buffer_size (u32 (ip_hdr_len + d.b_size))
        then null_with error_buffer_overflow
        else with_buffer sys none λ a. do
          pkt ← deref a
          hdr ← lift (ip_header sys.order d.b_size)
          filled ← lift (put_packet (ip_bytes sys.order hdr) pkt d)
          assign a filled
          set_errno 0
          pure (some a)

  unfoldable pub create_slip_frame : ℕ → M (Option ℕ)
  create_slip_frame payload = with_buffer sys none λ a. do
    d ← deref payload
    f ← deref a
    c ← lift (slip_encode_buffer f d)
    assign a c.dbuf
    set_errno c.errno
    if c.success then add_slip_end a else pure none

  unfoldable pub get_data_from : ℕ → ℕ → M (Option ℕ)
  get_data_from len pkt = with_buffer sys none λ a. do
    p ← deref pkt
    d ← deref a
    filled ← lift (get_payload len d p)
    assign a filled
    set_errno 0
    pure (some a)

  abbrev pub get_data_from_udp_packet : ℕ → M (Option ℕ)
  get_data_from_udp_packet = get_data_from udp_hdr_len

  abbrev pub get_data_from_ip_packet : ℕ → M (Option ℕ)
  get_data_from_ip_packet = get_data_from ip_hdr_len

  unfoldable pub send_tftp_packet : ℕ → Bool → M Bool
  send_tftp_packet pkt async = do
    udp ← create_udp_packet pkt
    unless_null udp λ u. do
      delete_buffer pkt
      ip ← create_ip_packet u
      unless_null ip λ i. do
        delete_buffer u
        slip ← create_slip_frame i
        unless_null slip λ f. do
          delete_buffer i
          sent ← send_slip_frame sys f async
          delete_buffer f
          e ← get_errno
          pure (e == 0)

  unfoldable pub send_tftp_req_packet : ℕ → List ℕ → M Bool
  send_tftp_req_packet opcode fname =
      if ltb max_buffer_size (length fname + 12)
      then false_with error_buffer_overflow
      else with_buffer sys false λ a. do
        pkt ← deref a
        let bytes = request_bytes sys.order opcode fname
        filled ← lift (memcpy pkt.b_addr 0 bytes 0 (length bytes))
        assign a (record { b_addr = filled; b_size = length fname + 12 })
        send_tftp_packet a true

  -- `bytes` is the block that the caller's pointer goes into, at `from`.
  unfoldable pub send_tftp_data_packet : ℕ → List ℕ → ℕ → ℤ → M Bool
  send_tftp_data_packet blknum bytes from nbytes = with_buffer sys false λ a. do
    pkt ← deref a
    let header = data_header sys.order (u16 blknum)
    with_header ← lift (memcpy pkt.b_addr 0 header 0 4)
    filled ← lift (memcpy with_header 4 bytes from (block_size nbytes))
    assign a (record { b_addr = filled; b_size = u32 (block_size nbytes + 4) })
    send_tftp_packet a true

  unfoldable pub recv_tftp_packet : M Bool
  recv_tftp_packet = with_buffer sys false λ a. recv_slip_frame sys a true

  -- The received bytes are in the block that recv_tftp_packet allocated.
  unfoldable pub extract_tftp_packet : ℕ → M Bool
  unfolding get_serial
  extract_tftp_packet pkt = do
    r ← get_serial
    with_buffer sys false λ a. do
      received ← deref r.io_data
      d ← deref a
      c ← lift (slip_decode_buffer d (record { b_addr = received.b_addr; b_size = r.io_actual }))
      assign a c.dbuf
      set_errno c.errno
      if c.success
          then (do
            delete_buffer r.io_data
            ip ← get_data_from_ip_packet a
            unless_null ip λ i. do
              delete_buffer a
              udp ← get_data_from_udp_packet i
              unless_null udp λ u. do
                out ← deref pkt
                tftp ← deref u
                filled ← lift (memcpy out.b_addr 0 tftp.b_addr 0 tftp.b_size)
                assign pkt (record { b_addr = filled; b_size = tftp.b_size })
                delete_buffer i
                delete_buffer u
                set_errno 0
                pure true)
          else pure false

-- The opcode and the block number of a packet.
unfoldable pub get_opcode : ByteOrder → Buffer → Option ℕ
unfolding htons
get_opcode order pkt = elim (load16 order pkt.b_addr 0) [
  | none ↦ none
  | some w ↦ some (ntohs order w)
]

unfoldable pub get_blknum : ByteOrder → Buffer → Option ℕ
unfolding htons
get_blknum order pkt = elim (load16 order pkt.b_addr 2) [
  | none ↦ none
  | some w ↦ some (ntohs order w)
]
