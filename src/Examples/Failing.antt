-- ===== src/Examples/Failing.antt =====
-- Handlers in which something fails.
use cwnet.Base.{ℕ, ◌≡◌, ◌≤◌, refl, [], ◌∷◌, none, some, true, false, pos, get_elem?}
use cwnet.Handler.State.{
  FileTransfer, queued, ready, data_sent, error, Handler, end_file, send_next_file, read_return,
  own, client, holds_own, without_timer, fail_transfer, return_dos_packet, dostrue,
  send_internal_packet, transfer, set_transfer,
}
use cwnet.Handler.Network.{NetIo}
use cwnet.Handler.Files.{on_end, get_next_file_from_queue}
use cwnet.Handler.Replies.{do_read_return}
use cwnet.Handler.Loop.{round, dispatch, on_request}
use cwnet.Handler.Queue.{FirstReady}
use cwnet.Handler.Accept.{all_ok}
use cwnet.Handler.Transfer.{file_at, buffer_at}
use cwnet.Handler.Errors.{
  end_file_twice, fail_transfer_cleared, do_read_return_after_error, on_end-FirstReady,
}
use cwnet.Examples.Sessions.{direct, quiet, Line}

-- The first file is being sent, and the second one was opened.
abbrev flying : FileTransfer
flying = file_at (b'a' ∷ []) data_sent 1 0 (buffer_at (7 ∷ []) 0 1 ∷ [])

abbrev opened : FileTransfer
opened = file_at (b'b' ∷ []) queued 0 0 []

abbrev sending : Handler Line
sending = record quiet {
  busy = true;
  transfers = flying ∷ opened ∷ [];
  iopkt1 = record { dp_type = read_return; dp_arg1 = some 0 };
  ftx = some 1;
}

abbrev two_ends : Handler Line
two_ends = record sending { port = client (end_file 0) ∷ client (end_file 1) ∷ [] }

abbrev one_end : Handler Line
one_end = record (return_dos_packet (end_file 0) dostrue 0 sending) {
  ftx = some 0;
  transfers = (record flying { ftx_state = ready }) ∷ opened ∷ [];
  outpkt = record { dp_type = send_next_file; dp_arg1 = none };
  port = client (end_file 1) ∷ own ∷ [];
}

one_end_run : round direct all_ok two_ends.port two_ends ≡ some one_end
unfolding round dispatch on_request on_end send_internal_packet holds_own transfer set_transfer
one_end_run = refl

end_file_twice_example : round direct all_ok one_end.port one_end ≡ none
end_file_twice_example = end_file_twice direct all_ok 0 1 [] two_ends one_end refl one_end_run

fail_transfer_cleared_example :
    (h₁ h₂ : Handler Line) × (fail_transfer 0 1000 sending ≡ some h₁)
    × (round direct all_ok h₁.port h₁ ≡ some h₂)
    × (get_elem? h₂.transfers 0
        ≡ some (record flying { ftx_state = error; ftx_error = 1000; ftx_buffers = [] }))
    × (h₂.port ≡ own ∷ [])
    × (h₂.outpkt ≡ record { dp_type = send_next_file; dp_arg1 = none })
    × (h₂.busy ≡ false)
fail_transfer_cleared_example = fail_transfer_cleared direct all_ok 0 1000 flying sending refl refl

-- A line on which every read ends with the error 6.
abbrev broken : NetIo
broken = record direct { get_status = λ s. some (pos 6, s) }

do_read_return_example :
    (h' : Handler Line) × (do_read_return broken 0 sending ≡ some h')
    × (h'.running ≡ false)
    × (get_elem? h'.transfers 0 ≡ some (record flying { ftx_state = error; ftx_error = 6 }))
unfolding without_timer holds_own
do_read_return_example =
    do_read_return_after_error broken 0 5 flying sending.net sending.net sending.net sending refl
      refl refl refl refl refl

-- A file whose write has failed.
abbrev failed_write : Handler Line
failed_write = record sending {
  transfers = flying ∷ (record opened { ftx_state = error; ftx_error = 103 }) ∷ [];
}

on_end_example :
    (h' : Handler Line) × (j : ℕ) × (on_end 1 failed_write ≡ some h')
    × (get_elem? h'.transfers 1 ≡ some (record opened { ftx_state = ready; ftx_error = 103 }))
    × (get_next_file_from_queue h'.transfers ≡ some j)
    × FirstReady h'.transfers j
    × (j ≤ 1)
unfolding holds_own
on_end_example =
    on_end-FirstReady 1 (record opened { ftx_state = error; ftx_error = 103 }) failed_write refl
      refl
