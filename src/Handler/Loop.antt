-- ===== src/Handler/Loop.antt =====
-- The main loop of `entry` in handler.c: one round for each packet, until `g_running` is 0.
use cwnet.Base.{
  none, ℕ, zero, suc, List, [], ◌∷◌, Option, some, Bool, false, ◌>>=◌, if◌then◌else◌, not,
}
use cwnet.Handler.State.{
  Handler, Internal, send_next_file, send_next_buffer, continue_buffer, file_finished, file_failed,
  buffer_finished, IoType, no_action, write_return, read_return, Request, is_filesystem,
  find_output, write, end_file, locate_object, free_lock, examine_object, examine_next, die,
  unknown, Message, client, own, serial, timer, dosfalse, dostrue, return_dos_packet,
}
use cwnet.Handler.Network.{NetIo}
use cwnet.Handler.Files.{
  do_find_output, do_write, on_end, on_file_done, on_buffer_finished, on_send_next_file,
  on_send_next_buffer, on_continue_buffer,
}
use cwnet.Handler.Locks.{do_locate_object, on_free_lock, do_examine_object, do_examine_next}
use cwnet.Handler.Replies.{do_write_return, do_read_return, on_timer_expired, abort_io}

abbrev pub error_action_not_known : ℕ
error_action_not_known = 209

module _ (net : NetIo) (alloc_ok : ℕ → Bool) where
  open net use {Net}

  -- case ACTION_DIE
  unfoldable pub on_die : Handler Net → Option (Handler Net)
  unfolding abort_io return_dos_packet
  on_die h = do
    h' ← abort_io net h
    some (return_dos_packet die dostrue 0 (record h' { running = false; dn_task = false }))

  -- The packets of the clients.
  unfoldable pub on_request : Request → Handler Net → Option (Handler Net)
  unfolding on_die return_dos_packet
  on_request is_filesystem h = some (return_dos_packet is_filesystem dostrue 0 h)
  on_request (find_output name) h = do_find_output alloc_ok name h
  on_request (write i bytes) h = do_write alloc_ok i bytes h
  on_request (end_file i) h = on_end i h
  on_request (locate_object dir name mode) h = do_locate_object alloc_ok dir name mode h
  on_request (free_lock a) h = some (on_free_lock a h)
  on_request (examine_object a info) h = do_examine_object a info h
  on_request (examine_next a info) h = do_examine_next a info h
  on_request die h = on_die h
  on_request unknown h = some (return_dos_packet unknown dosfalse error_action_not_known h)

  -- The internal packet, with the transfer that it is about. NULL is read by none of these cases
  -- but the first.
  unfoldable pub on_internal : Internal → Option ℕ → Handler Net → Option (Handler Net)
  on_internal send_next_file arg h = on_send_next_file net h
  on_internal send_next_buffer arg h = arg >>= λ i. on_send_next_buffer net i h
  on_internal continue_buffer arg h = arg >>= λ i. on_continue_buffer net i h
  on_internal file_finished arg h = arg >>= λ i. on_file_done i h
  on_internal file_failed arg h = arg >>= λ i. on_file_done i h
  on_internal buffer_finished arg h = arg >>= λ i. on_buffer_finished i h

  -- The serial request has been returned. Before the first one its packet has the type 0, and no
  -- port and message that return_dos_packet could use: that is a fault.
  unfoldable pub on_serial : IoType → Option ℕ → Handler Net → Option (Handler Net)
  unfolding return_dos_packet
  on_serial no_action arg h = none
  on_serial write_return arg h = arg >>= λ i. do_write_return net i h
  on_serial read_return arg h = arg >>= λ i. do_read_return net i h

  -- The switch on the packet's type.
  unfoldable pub dispatch : Message → Handler Net → Option (Handler Net)
  unfolding on_request on_internal on_serial
  dispatch (client r) h = on_request r h
  dispatch own h = on_internal (h.outpkt).dp_type (h.outpkt).dp_arg1 h
  dispatch serial h = on_serial (h.iopkt1).dp_type (h.iopkt1).dp_arg1 h
  dispatch timer h = on_timer_expired net h

  -- One round: `GetMsg` and the switch. With an empty port the loop waits.
  unfoldable pub round : List Message → Handler Net → Option (Handler Net)
  unfolding dispatch
  round [] h = some h
  round (m ∷ ms) h = dispatch m (record h { port = ms })

  -- The loop for as many rounds as there are packets, at most `n`.
  unfoldable pub main_loop : ℕ → Handler Net → Option (Handler Net)
  unfolding round
  main_loop zero h = some h
  main_loop (suc n) h =
      let rest = round h.port h >>= main_loop n in if not h.running then some h else rest
