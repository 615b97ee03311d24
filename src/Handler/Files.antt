-- ===== src/Handler/Files.antt =====
-- The file transfers: do_find_output and do_write of dos.c, and the cases of the main loop of
-- handler.c that close, start, continue and end a transfer.
use cwnet.Base.{
  ℕ, suc, ◌+◌, ◌%◌, ◌^◌, List, [], ◌∷◌, ◌++◌, Option, none, some, Bool, true, false, ◌>>=◌,
  if◌then◌else◌, pos, length,
}
use cwnet.Protocol.{tftp_max_data_size, op_wrq, error_no_free_store}
use cwnet.Handler.Names.{url_file_name, bcpl_to_c_str}
use cwnet.Handler.State.{
  FileBuffer, FileTransfer, TransferState, queued, ready, wrq_sent, rrq_sent, data_sent, error,
  finished, Handler, send_next_file, send_next_buffer, file_finished, file_failed, write_return,
  find_output, write, end_file, number, dosfalse, dostrue, send_internal_packet, return_dos_packet,
  transfer, set_transfer, set_error, fail_transfer,
}
use cwnet.Handler.Network.{NetIo}

unfoldable pub new_transfer : List ℕ → FileTransfer
new_transfer name = record {
  ftx_fname = name;
  ftx_state = queued;
  ftx_blknum = 0;
  ftx_error = 0;
  ftx_buffers = [];
}

unfoldable pub new_buffer : List ℕ → FileBuffer
new_buffer bytes = record {
  fb_bytes = bytes;
  fb_curpos = 0;
  fb_nbytes_to_send = pos (length bytes);
}

abbrev pub is_ready : TransferState → Bool
is_ready ready = true
is_ready queued = false
is_ready wrq_sent = false
is_ready rrq_sent = false
is_ready data_sent = false
is_ready error = false
is_ready finished = false

-- The first transfer in state S_READY, counted from `i`.
unfoldable pub ready_from : ℕ → List FileTransfer → Option ℕ
ready_from i [] = none
ready_from i (f ∷ fs) = if is_ready f.ftx_state then some i else ready_from (suc i) fs

unfoldable pub get_next_file_from_queue : List FileTransfer → Option ℕ
unfolding ready_from
get_next_file_from_queue = ready_from 0

module _ {N : Type 0} where
  -- A failed write: the packet is returned, and the transfer fails.
  unfoldable pub write_failed : ℕ → List ℕ → Handler N → Option (Handler N)
  unfolding return_dos_packet set_error send_internal_packet
  write_failed i bytes h = do
    h' ←
        set_error i error_no_free_store
          (return_dos_packet (write i bytes) dosfalse error_no_free_store h)
    send_internal_packet file_failed (some i) h'

-- The handler's own requests for memory, numbered as they are made: the n-th is met or not.
module _ {N : Type 0} (alloc_ok : ℕ → Bool) where
  -- `inpkt->dp_Arg3` is the BCPL string of the name.
  unfoldable pub do_find_output : List ℕ → Handler N → Option (Handler N)
  unfolding new_transfer return_dos_packet
  do_find_output bstr h = do
    fname ← bcpl_to_c_str bstr
    name ← url_file_name fname
    let h' : Handler N = record h { requests = suc h.requests }
    let i = length h.transfers
    some (
        if alloc_ok h.requests
        then record h' {
          transfers = h.transfers ++ new_transfer name ∷ [];
          replies =
              h.replies
              ++ (record {
                request = find_output bstr;
                res1 = dostrue;
                res2 = 0;
                handle = some i;
                info = none;
              })
                ∷ [];
        }
        else return_dos_packet (find_output bstr) dosfalse error_no_free_store h')

  -- `AllocVec` for the FileBuffer, and then for its bytes.
  unfoldable pub do_write : ℕ → List ℕ → Handler N → Option (Handler N)
  unfolding write_failed new_buffer return_dos_packet transfer set_transfer
  do_write i bytes h =
      let one : Handler N = record h { requests = suc h.requests } in
      let two : Handler N = record h { requests = suc (suc h.requests) } in
      if alloc_ok h.requests
      then if alloc_ok (suc h.requests)
        then (do
          f ← transfer h i
          let f' : FileTransfer = record f { ftx_buffers = f.ftx_buffers ++ new_buffer bytes ∷ [] }
          some
              (return_dos_packet (write i bytes) (number (length bytes)) 0 (set_transfer i f' two)))
        else write_failed i bytes two
      else write_failed i bytes one

module _ {N : Type 0} where
  -- case ACTION_END
  unfoldable pub on_end : ℕ → Handler N → Option (Handler N)
  unfolding transfer set_transfer return_dos_packet send_internal_packet
  on_end i h = do
    f ← transfer h i
    let h' =
        set_transfer i (record f { ftx_state = ready })
          (return_dos_packet (end_file i) dostrue 0 (record h { ftx = some i }))
    send_internal_packet send_next_file none h'

  -- The Buffers are freed.
  -- cases ACTION_FILE_FINISHED and ACTION_FILE_FAILED
  unfoldable pub on_file_done : ℕ → Handler N → Option (Handler N)
  unfolding transfer set_transfer send_internal_packet
  on_file_done i h = do
    f ← transfer h i
    send_internal_packet send_next_file none
        (set_transfer i (record f { ftx_buffers = [] }) (record h { ftx = some i }))

  -- case ACTION_BUFFER_FINISHED: RemHead returns NULL for an empty list, whose fields are read.
  unfoldable pub on_buffer_finished : ℕ → Handler N → Option (Handler N)
  unfolding transfer set_transfer send_internal_packet
  on_buffer_finished i h = do
    f ← transfer h i
    elim f.ftx_buffers [
      | [] ↦ none
      | b ∷ rest ↦
          send_internal_packet send_next_buffer (some i)
            (set_transfer i (record f { ftx_buffers = rest }) (record h { ftx = some i }))
    ]

module _ (net : NetIo) where
  open net use {Net, errno, send_req, send_data}

  -- The result of a call of netio.c that sends for the transfer `i`: `next` is its new state.
  unfoldable pub after_send : ℕ → TransferState → Bool × Net → Handler Net → Option (Handler Net)
  unfolding transfer set_transfer fail_transfer
  after_send i next (true, n) h = do
    f ← transfer h i
    some (set_transfer i (record f { ftx_state = next }) (record h { net = n }))
  after_send i next (false, n) h = fail_transfer i (errno n) (record h { net = n })

  -- A write request for the transfer `i`.
  unfoldable pub start_file : ℕ → Handler Net → Option (Handler Net)
  unfolding transfer
  start_file i h = do
    f ← transfer h i
    r ← send_req op_wrq f.ftx_fname h.net
    after_send i wrq_sent r
        (record h { busy = true; iopkt1 = record { dp_type = write_return; dp_arg1 = some i } })

  -- case ACTION_SEND_NEXT_FILE
  unfoldable pub on_send_next_file : Handler Net → Option (Handler Net)
  unfolding start_file get_next_file_from_queue
  on_send_next_file h = if h.busy then some h else elim (get_next_file_from_queue h.transfers) [
    | none ↦ some (record h { ftx = none })
    | some i ↦ start_file i (record h { ftx = some i })
  ]

  -- The block with the next number is sent from the buffer at the head of the list.
  unfoldable pub send_block : ℕ → FileTransfer → FileBuffer → Handler Net → Option (Handler Net)
  unfolding set_transfer
  send_block i f b h =
      let blknum = (f.ftx_blknum + 1) % 2 ^ 32 in
      let h' : Handler Net =
        set_transfer i (record f { ftx_blknum = blknum })
          (record h { iopkt1 = record { dp_type = write_return; dp_arg1 = (h.iopkt1).dp_arg1 } }) in
      send_data blknum b.fb_bytes b.fb_curpos b.fb_nbytes_to_send h.net >>= λ r.
      after_send i data_sent r h'

  -- case ACTION_SEND_NEXT_BUFFER
  unfoldable pub on_send_next_buffer : ℕ → Handler Net → Option (Handler Net)
  unfolding transfer set_transfer send_internal_packet
  on_send_next_buffer i h = do
    f ← transfer h i
    elim f.ftx_buffers [
      | [] ↦ send_internal_packet file_finished (some i) (
          set_transfer i (record f { ftx_state = finished })
            (record h { ftx = some i; busy = false }))
      | b ∷ rest ↦ send_block i f b (record h { ftx = some i })
    ]

  -- case ACTION_CONTINUE_BUFFER: the buffer at the head is written to whether there is one or not.
  unfoldable pub on_continue_buffer : ℕ → Handler Net → Option (Handler Net)
  unfolding transfer set_transfer
  on_continue_buffer i h = do
    f ← transfer h i
    elim f.ftx_buffers [
      | [] ↦ none
      | b ∷ rest ↦
          (let b' : FileBuffer = record b { fb_curpos = b.fb_curpos + tftp_max_data_size } in
            send_block i (record f { ftx_buffers = b' ∷ rest }) b' (record h { ftx = some i }))
    ]
