-- ===== src/Handler/Wire.antt =====
-- The handler on top of netio.c: the interface filled with the model of netio.c, and the handler's
-- sends down to the frames on the wire.
use cwnet.Base.{
  ℕ, suc, [], ◌∷◌, ◌+◌, ◌%◌, ◌^◌, ◌≡◌, ◌≤◌, ◌<◌, refl, ap, List, Option, none, some, true, false,
  length, arith, ◌>>=◌, pos, set, get_elem?, get_elem?-set_self, length-set,
}
use cwnet.Slip.{Buffer}
use cwnet.Packet.{ByteOrder, big_endian, little_endian, htons, word16, load16}
use cwnet.Slip.Spec.{encode}
use cwnet.Net.State.{System, Net, netio_stop_timer, netio_get_status, netio_abort}
use cwnet.Net.Laws.{IsFresh}
use cwnet.Net.Frame.{slip_frame}
use cwnet.Net.Send.{HasMemory, IsPacket, Sent}
use cwnet.Net.Request.{request_packet, data_packet, block_bytes}
use cwnet.Net.Fits.{send_tftp_req_packet-Sent, send_tftp_data_packet-Sent}
use cwnet.Net.Tftp.{
  send_tftp_req_packet, send_tftp_data_packet, recv_tftp_packet, extract_tftp_packet, get_opcode,
  get_blknum,
}
use cwnet.Handler.State.{
  fail_transfer, FileTransfer, wrq_sent, data_sent, Handler, write_return, transfer, set_transfer,
}
use cwnet.Protocol.{error_tftp_wrong_block_num}
use cwnet.Handler.Replies.{on_ack}
use cwnet.Handler.Errors.{on_data_ack_wrapped}
use cwnet.Handler.Network.{NetIo}
use cwnet.Handler.Files.{
  on_send_next_file, start_file, send_block, after_send, get_next_file_from_queue,
}
use cwnet.Handler.Transfer.{get_elem?-lt}

-- The state behind an action without a result.
abbrev state_of : Option (Unit {0} × Net) → Option Net
state_of none = none
state_of (some (u, s)) = some s

-- netio.c for the handler, whose buffer for received packets is at `pkt`. `device` is what the
-- devices have done to their requests when one of them is back at the port.
abbrev pub over_netio : System → (Net → Net) → ℕ → NetIo
over_netio sys device pkt = record {
  Net = Net;
  errno = λ s. s.errno;
  send_req = send_tftp_req_packet sys;
  send_data = send_tftp_data_packet sys;
  recv = recv_tftp_packet sys;
  extract = extract_tftp_packet sys pkt;
  opcode = λ s. s.cell pkt >>= get_opcode sys.order;
  blknum = λ s. s.cell pkt >>= get_blknum sys.order;
  stop_timer = λ s. state_of (netio_stop_timer s);
  get_status = λ s. netio_get_status (device s);
  abort = λ s. state_of (netio_abort s);
}

load16-some :
    (order : ByteOrder) (block : List ℕ)
    → 4 ≤ length block
    → (w : ℕ) × (load16 order block 2 ≡ some w)
load16-some order [] h = absurd (omega arith)
load16-some order (a ∷ []) h = absurd (omega arith)
load16-some order (a ∷ b ∷ []) h = absurd (omega arith)
load16-some order (a ∷ b ∷ c ∷ []) h = absurd (omega arith)
load16-some order (a ∷ b ∷ c ∷ d ∷ rest) h = (word16 order c d, refl)

htons-lt : (order : ByteOrder) (n : ℕ) → htons order n < 2 ^ 16
unfolding htons
htons-lt big_endian n = omega arith
htons-lt little_endian n = omega arith

-- The block number of a packet of four bytes or more.
get_blknum-lt :
    (order : ByteOrder) (b : Buffer)
    → 4 ≤ length b.b_addr
    → (k : ℕ) × (get_blknum order b ≡ some k) × (k < 2 ^ 16)
unfolding get_blknum
get_blknum-lt order b long =
    let (w, e) = load16-some order b.b_addr long in
    (
      htons order w,
      ap (λ (o : Option ℕ). elim o [ none ↦ none | some v ↦ some (htons order v) ]) e,
      htons-lt order w,
    )

module _ (sys : System) (device : Net → Net) (pkt : ℕ) where
  -- From the 65536th block of a file on, whatever acknowledgement the handler has received (a packet
  -- of four bytes or more) fails the transfer: its block number has 16 bits, that of the transfer 32.
  pub on_ack_wrapped :
      (i : ℕ) (f : FileTransfer) (b : Buffer) (h : Handler Net)
      → (h.net).cell pkt ≡ some b
      → 4 ≤ length b.b_addr
      → 2 ^ 16 ≤ f.ftx_blknum
      → on_ack (over_netio sys device pkt) i f data_sent h
        ≡ fail_transfer i error_tftp_wrong_block_num h
  unfolding on_ack
  on_ack_wrapped i f b h found long far =
      let (k, number, small) = get_blknum-lt sys.order b long in
      rw (found, number) (on_data_ack_wrapped (over_netio sys device pkt) i k f h small far)

-- The next requests for memory are met, and no block stands at an address to come.
pub record CanSend (sys : System) (s : Net) : Type 0 where
  pub fresh : IsFresh s
  pub first : sys.alloc_ok s.next ≡ true
  pub others : HasMemory sys (suc s.next)

module _ (sys : System) (device : Net → Net) (pkt : ℕ) (h : Handler Net)
    (can : CanSend sys h.net) where
  -- On top of netio.c, with memory for the packet's four Buffers, ACTION_SEND_NEXT_FILE on a free
  -- handler puts the frame of the write request for the first ready file, whose name has at most
  -- 255 bytes, on the wire; the transfer is then in S_WRQ_SENT, and the handler is busy with it.
  pub on_send_next_file-Sent :
      (i : ℕ) (f : FileTransfer)
      → h.busy ≡ false
      → get_next_file_from_queue h.transfers ≡ some i
      → get_elem? h.transfers i ≡ some f
      → length f.ftx_fname ≤ 255
      → (h' : Handler Net) × (packet : List ℕ) × (on_send_next_file (over_netio sys device pkt) h
          ≡ some h')
        × IsPacket sys (request_packet 2 f.ftx_fname) packet
        × Sent h.net h'.net (slip_frame packet)
        × (get_elem? h'.transfers i ≡ some (record f { ftx_state = wrq_sent }))
        × (h'.busy ≡ true)
        × (h'.iopkt1 ≡ record { dp_type = write_return; dp_arg1 = some i })
  unfolding on_send_next_file start_file after_send
  on_send_next_file-Sent i f idle next found short =
      let (packet, ok, (s', sent, rest)) =
        send_tftp_req_packet-Sent sys h.net 2 f.ftx_fname can.fresh can.first can.others
          (omega arith) short in
      let f' : FileTransfer = record f { ftx_state = wrq_sent } in
      (
        record h {
          ftx = some i;
          busy = true;
          iopkt1 = record { dp_type = write_return; dp_arg1 = some i };
          transfers = set h.transfers i f';
          net = s';
        },
        packet,
        rw (idle, next, found, sent, found),
        ok,
        rest,
        get_elem?-set_self h.transfers i f' (get_elem?-lt h.transfers i f found),
        refl,
        refl,
      )

  -- A block of a buffer whose coding takes at most 959 bytes: the frame of the data packet with the
  -- next block number, cut to 16 bits, goes to the wire, with memory for the packet's four Buffers,
  -- and the transfer is in S_DATA_SENT with that number.
  pub send_block-Sent :
      (i : ℕ) (f : FileTransfer) (bytes : List ℕ) (from n : ℕ)
      → i < length h.transfers
      → from + n ≤ length bytes
      → length (encode (block_bytes bytes from n)) ≤ 959
      → (h' : Handler Net) × (packet : List ℕ) × (send_block
            (over_netio sys device pkt)
            i
            f
            (record { fb_bytes = bytes; fb_curpos = from; fb_nbytes_to_send = pos n })
            h
          ≡ some h')
        × IsPacket sys (data_packet ((f.ftx_blknum + 1) % 2 ^ 16) (block_bytes bytes from n)) packet
        × Sent h.net h'.net (slip_frame packet)
        × (get_elem? h'.transfers i
            ≡ some (record f { ftx_state = data_sent; ftx_blknum = (f.ftx_blknum + 1) % 2 ^ 32 }))
  unfolding send_block after_send transfer set_transfer
  send_block-Sent i f bytes from n near fits short =
      let k = (f.ftx_blknum + 1) % 2 ^ 32 in
      let (packet, ok, (s', sent, rest)) =
        send_tftp_data_packet-Sent sys h.net k bytes from n can.fresh can.first can.others fits
          short in
      let f₁ : FileTransfer = record f { ftx_blknum = k } in
      let f₂ : FileTransfer = record f₁ { ftx_state = data_sent } in
      let low : k % 2 ^ 16 ≡ (f.ftx_blknum + 1) % 2 ^ 16 = omega arith in
      (
        record h {
          transfers = set (set h.transfers i f₁) i f₂;
          iopkt1 = record { dp_type = write_return; dp_arg1 = (h.iopkt1).dp_arg1 };
          net = s';
        },
        packet,
        rw (sent, get_elem?-set_self h.transfers i f₁ near),
        rw (← low) ok,
        rest,
        get_elem?-set_self (set h.transfers i f₁) i f₂ (rw (length-set h.transfers i f₁) near),
      )
