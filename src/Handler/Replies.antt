-- ===== src/Handler/Replies.antt =====
-- The answers of the devices: do_write_return and do_read_return of dos.c, and the timer's case of
-- the main loop. After an error both functions go on as if there had been none.
use cwnet.Base.{
  ℕ, zero, suc, List, [], ◌∷◌, Option, none, some, Bool, true, false, ◌>>=◌, if◌then◌else◌, ◌==◌, ℤ,
  pos, negsuc, sub_nat, exceeds,
}
use cwnet.Protocol.{
  tftp_max_data_size, op_ack, op_error, error_tftp_generic_error, error_tftp_unknown_opcode,
  error_tftp_wrong_block_num, error_io_timeout,
}
use cwnet.Handler.State.{
  FileBuffer, FileTransfer, TransferState, queued, ready, wrq_sent, rrq_sent, data_sent, error,
  finished, Handler, send_next_buffer, continue_buffer, buffer_finished, read_return,
  send_internal_packet, transfer, set_transfer, fail_transfer, without_serial, without_timer,
}
use cwnet.Handler.Network.{NetIo}

module _ (net : NetIo) where
  open net use {Net, errno, recv, extract, opcode, blknum, stop_timer, get_status, abort}

  -- `netio_stop_timer()`
  unfoldable pub stop_io_timer : Handler Net → Option (Handler Net)
  unfolding without_timer
  stop_io_timer h = do
    n ← stop_timer h.net
    some (record h { net = n; port = without_timer h.port })

  -- `netio_abort()`
  unfoldable pub abort_io : Handler Net → Option (Handler Net)
  unfolding without_serial
  abort_io h = do n ← abort h.net; some (record h { net = n; port = without_serial h.port })

  -- The branches on `status`: -1, a positive error, and all else.
  unfoldable pub on_status : ℕ → ℤ → Handler Net → Option (Handler Net)
  unfolding fail_transfer
  on_status i (negsuc zero) h = some (record h { busy = false; running = false })
  on_status i (negsuc (suc n)) h = some h
  on_status i (pos zero) h = some h
  on_status i (pos (suc n)) h = fail_transfer i (suc n) h

  unfoldable pub check_status : ℕ → Handler Net → Option (Handler Net)
  unfolding on_status
  check_status i h = do (status, n) ← get_status h.net; on_status i status (record h { net = n })

  -- DOSFALSE from a routine of netio.c fails the transfer.
  unfoldable pub unless_done : ℕ → Bool × Net → Handler Net → Option (Handler Net)
  unfolding fail_transfer
  unless_done i (true, n) h = some (record h { net = n })
  unless_done i (false, n) h = fail_transfer i (errno n) (record h { net = n })

  -- `inpkt` and `iopkt` are both the packet of the serial request.
  unfoldable pub do_write_return : ℕ → Handler Net → Option (Handler Net)
  unfolding stop_io_timer check_status unless_done
  do_write_return i h = do
    h₁ ← stop_io_timer h
    h₂ ← check_status i h₁
    let h₃ : Handler Net = record h₂ {
      iopkt1 = record { dp_type = read_return; dp_arg1 = (h₂.iopkt1).dp_arg1 };
    }
    r ← recv h₃.net
    unless_done i r h₃

  -- The acknowledgement of the block that was sent: the buffer goes on, or is finished.
  unfoldable pub block_acknowledged :
      ℕ → FileTransfer → FileBuffer → List FileBuffer → Handler Net → Option (Handler Net)
  unfolding set_transfer send_internal_packet
  block_acknowledged i f b rest h =
      let left = sub_nat b.fb_nbytes_to_send tftp_max_data_size in
      let f' : FileTransfer = record f {
        ftx_buffers = record b { fb_nbytes_to_send = left } ∷ rest;
      } in
      send_internal_packet (if exceeds left 0 then continue_buffer else buffer_finished) (some i)
        (set_transfer i f' h)

  -- `fbuf` is the head of the list of buffers; with an empty list it is no buffer.
  unfoldable pub on_data_ack : ℕ → FileTransfer → ℕ → Handler Net → Option (Handler Net)
  unfolding block_acknowledged fail_transfer
  on_data_ack i f received h =
      if received == f.ftx_blknum
      then elim f.ftx_buffers [ [] ↦ none | b ∷ rest ↦ block_acknowledged i f b rest h ]
      else fail_transfer i error_tftp_wrong_block_num h

  -- case OP_ACK, by the state of the transfer
  unfoldable pub on_ack : ℕ → FileTransfer → TransferState → Handler Net → Option (Handler Net)
  unfolding on_data_ack send_internal_packet
  on_ack i f wrq_sent h = send_internal_packet send_next_buffer (some i) h
  on_ack i f data_sent h = blknum h.net >>= λ b. on_data_ack i f b h
  on_ack i f queued h = some (record h { busy = false; running = false })
  on_ack i f ready h = some (record h { busy = false; running = false })
  on_ack i f rrq_sent h = some (record h { busy = false; running = false })
  on_ack i f error h = some (record h { busy = false; running = false })
  on_ack i f finished h = some (record h { busy = false; running = false })

  -- The switch on the opcode.
  unfoldable pub on_opcode : ℕ → ℕ → Handler Net → Option (Handler Net)
  unfolding on_ack transfer fail_transfer
  on_opcode i op h =
      if op == op_ack
      then (transfer h i >>= λ f. on_ack i f f.ftx_state h)
      else if op == op_error
      then fail_transfer i error_tftp_generic_error h
      else fail_transfer i error_tftp_unknown_opcode h

  unfoldable pub do_read_return : ℕ → Handler Net → Option (Handler Net)
  unfolding stop_io_timer check_status unless_done on_opcode
  do_read_return i h = do
    h₁ ← stop_io_timer h
    h₂ ← check_status i h₁
    r ← extract h₂.net
    h₃ ← unless_done i r h₂
    op ← opcode h₃.net
    on_opcode i op h₃

  -- case ACTION_TIMER_EXPIRED: `ftx` is what an earlier round of the loop has left in it.
  unfoldable pub on_timer_expired : Handler Net → Option (Handler Net)
  unfolding abort_io fail_transfer
  on_timer_expired h = do h' ← abort_io h; i ← h'.ftx; fail_transfer i error_io_timeout h'
