-- ===== src/Examples/Wired.antt =====
-- A handler on top of the model of netio.c.
use cwnet.Base.{
  ◌>>=◌, ℕ, ◌+◌, ◌%◌, ◌^◌, ◌≡◌, refl, List, [], ◌∷◌, none, some, true, false, arith, pos, get_elem?,
}
use cwnet.Slip.Spec.{length-encode-le_double}
use cwnet.Net.State.{Net}
use cwnet.Net.Frame.{slip_frame}
use cwnet.Net.Send.{IsPacket, Sent}
use cwnet.Net.Request.{request_packet, data_packet, block_bytes}
use cwnet.Handler.State.{
  queued, error, read_return, client, end_file, timer, own, file_failed, fail_transfer,
  FileTransfer, Handler, ready, wrq_sent, data_sent, send_next_file, no_action, write_return,
}
use cwnet.Slip.{Buffer}
use cwnet.Handler.Timeouts.{timeout_after_end}
use cwnet.Handler.Loop.{round}
use cwnet.Handler.Transfer.{all_ok}
use cwnet.Handler.Replies.{on_ack}
use cwnet.Handler.Files.{on_send_next_file, send_block, get_next_file_from_queue, ready_from}
use cwnet.Handler.Transfer.{file_at, buffer_at}
use cwnet.Handler.Wire.{
  over_netio, CanSend, on_send_next_file-Sent, send_block-Sent, on_ack_wrapped,
}
use cwnet.Examples.Sending.{amiga, empty_net}

abbrev waiting : FileTransfer
waiting = file_at (b'f' ∷ []) ready 0 0 (buffer_at (7 ∷ 8 ∷ 9 ∷ []) 0 3 ∷ [])

abbrev idle : Handler Net
idle = record {
  running = true;
  busy = false;
  transfers = waiting ∷ [];
  locks = [];
  lock_blocks = 0;
  requests = 3;
  outpkt = record { dp_type = send_next_file; dp_arg1 = none };
  iopkt1 = record { dp_type = no_action; dp_arg1 = none };
  port = [];
  replies = [];
  ftx = none;
  dn_task = true;
  net = empty_net;
}

abbrev device : Net → Net
device s = record s { sreq = record (s.sreq) { pending = false; io_error = pos 0 } }

empty_net-CanSend : CanSend amiga empty_net
empty_net-CanSend = record { fresh = λ a h. refl; first = refl; others = (refl, refl, refl) }

on_send_next_file_example :
    (h : Handler Net) × (packet : List ℕ) × (on_send_next_file (over_netio amiga device 0) idle
      ≡ some h)
    × IsPacket amiga (request_packet 2 (b'f' ∷ [])) packet
    × Sent empty_net h.net (slip_frame packet)
    × (get_elem? h.transfers 0 ≡ some (record waiting { ftx_state = wrq_sent }))
    × (h.busy ≡ true)
    × (h.iopkt1 ≡ record { dp_type = write_return; dp_arg1 = some 0 })
unfolding get_next_file_from_queue ready_from
on_send_next_file_example =
    on_send_next_file-Sent amiga device 0 idle empty_net-CanSend 0 waiting refl refl refl
      (omega arith)

send_block_example :
    (h : Handler Net) × (packet : List ℕ) × (send_block
        (over_netio amiga device 0)
        0
        waiting
        (buffer_at (7 ∷ 8 ∷ 9 ∷ []) 0 3)
        idle
      ≡ some h)
    × IsPacket amiga (data_packet ((0 + 1) % 2 ^ 16) (block_bytes (7 ∷ 8 ∷ 9 ∷ []) 0 3)) packet
    × Sent empty_net h.net (slip_frame packet)
    × (get_elem? h.transfers 0
        ≡ some (record waiting { ftx_state = data_sent; ftx_blknum = (0 + 1) % 2 ^ 32 }))
send_block_example =
    send_block-Sent amiga device 0 idle empty_net-CanSend 0 waiting (7 ∷ 8 ∷ 9 ∷ []) 0 3
      (omega arith) (omega arith)
      (omega (arith, length-encode-le_double (block_bytes (7 ∷ 8 ∷ 9 ∷ []) 0 3)))

-- A file of which 65536 blocks were sent, and an acknowledgement with the number 0.
abbrev far : FileTransfer
far = record waiting { ftx_state = data_sent; ftx_blknum = 65536 }

abbrev answer : Buffer
answer = record { b_addr = 0 ∷ 4 ∷ 0 ∷ 0 ∷ []; b_size = 4 }

abbrev answered : Handler Net
answered = record idle { net = record empty_net { cell = λ a. some answer } }

on_ack_wrapped_example :
    on_ack (over_netio amiga device 0) 0 far data_sent answered ≡ fail_transfer 0 1002 answered
on_ack_wrapped_example =
    on_ack_wrapped amiga device 0 0 far answer answered refl (omega arith) (omega arith)

-- One file is being sent, and a client closes another one, which it has opened before.
abbrev flying : FileTransfer
flying = record waiting { ftx_state = data_sent; ftx_blknum = 1 }

abbrev opened : FileTransfer
opened = file_at (b'g' ∷ []) queued 0 0 []

abbrev sending : Handler Net
sending = record idle {
  busy = true;
  transfers = flying ∷ opened ∷ [];
  iopkt1 = record { dp_type = read_return; dp_arg1 = some 0 };
  port = client (end_file 1) ∷ [];
  ftx = some 0;
}

timeout_after_end_example :
    (h' : Handler Net) × ((round (over_netio amiga device 0) all_ok sending.port sending >>= λ h₁.
    round (over_netio amiga device 0) all_ok h₁.port h₁ >>= λ h₂.
    round (over_netio amiga device 0) all_ok (timer ∷ []) h₂)
      ≡ some h')
    × (get_elem? h'.transfers 1 ≡ some (record opened { ftx_state = error; ftx_error = 1004 }))
    × (get_elem? h'.transfers 0 ≡ some flying)
    × (h'.port ≡ own ∷ [])
    × (h'.outpkt ≡ record { dp_type = file_failed; dp_arg1 = some 1 })
    × (h'.busy ≡ false)
timeout_after_end_example =
    timeout_after_end amiga device 0 all_ok 0 1 opened sending refl refl refl refl
      (λ e. omega arith)
