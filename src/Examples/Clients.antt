-- ===== src/Examples/Clients.antt =====
-- The packets of clients: names, answers, the queue and the locks.
use cwnet.Base.{ℕ, ◌≡◌, refl, List, [], ◌∷◌, none, some, arith}
use cwnet.Handler.Names.{
  bcpl_to_c_str, fib_name, bcpl_read, until_nul, has_double_slash, same_bytes, queue_name,
  after_last, or_else,
}
use cwnet.Handler.State.{
  FileTransfer, ready, finished, Handler, LinkedLock, Request, write, locate_object, number,
  return_dos_packet, transfer, set_transfer,
}
use cwnet.Handler.Files.{get_next_file_from_queue, do_write, new_buffer}
use cwnet.Handler.Locks.{
  do_locate_object, locate, target, grant_target, grant_file, grant_lock, find_name, on_free_lock,
  find_lock_in_list,
}
use cwnet.Handler.Loop.{on_request}
use cwnet.Handler.Naming.{bcpl_read-fib_name}
use cwnet.Handler.Answers.{Answered}
use cwnet.Handler.Answers.Whole.{on_request-Answered}
use cwnet.Handler.Queue.{Found, get_next_file_from_queue-Found}
use cwnet.Handler.Accept.{all_ok}
use cwnet.Handler.Leases.{IsValid}
use cwnet.Handler.Leases.Valid.{do_locate_object-IsValid, on_free_lock-IsValid}
use cwnet.Handler.Transfer.{file_at}
use cwnet.Examples.Sessions.{direct, quiet, Line}

bcpl_read_example : bcpl_read (fib_name (b'a' ∷ b'b' ∷ b'c' ∷ [])) ≡ b'a' ∷ b'b' ∷ []
bcpl_read_example = bcpl_read-fib_name (b'a' ∷ b'b' ∷ b'c' ∷ []) (omega arith) (omega arith)

-- A queue with a finished file and two that are ready.
abbrev three_files : List FileTransfer
three_files =
    file_at (b'a' ∷ []) finished 1 0 []
    ∷ file_at (b'b' ∷ []) ready 0 0 []
    ∷ file_at (b'c' ∷ []) ready 0 0 []
    ∷ []

get_next_file_from_queue_example : Found three_files (get_next_file_from_queue three_files)
get_next_file_from_queue_example = get_next_file_from_queue-Found three_files

abbrev with_files : Handler Line
with_files = record quiet { transfers = three_files }

abbrev after_write : Handler Line
after_write = return_dos_packet (write 1 (7 ∷ [])) (number 1) 0 (record with_files {
  requests = 2;
  transfers =
      file_at (b'a' ∷ []) finished 1 0 []
      ∷ file_at (b'b' ∷ []) ready 0 0 (new_buffer (7 ∷ []) ∷ [])
      ∷ file_at (b'c' ∷ []) ready 0 0 []
      ∷ [];
})

write_run : on_request direct all_ok (write 1 (7 ∷ [])) with_files ≡ some after_write
unfolding on_request do_write transfer set_transfer
write_run = refl

on_request_example : Answered (write 1 (7 ∷ [])) with_files after_write
on_request_example =
    on_request-Answered direct all_ok (write 1 (7 ∷ [])) with_files after_write write_run

-- A handler with one lock.
abbrev held_lock : LinkedLock
held_lock = record { address = 0; fl_access = 0; fl_key = none }

abbrev locked : Handler Line
locked = record with_files { locks = held_lock ∷ []; lock_blocks = 1; requests = 1 }

locked-IsValid : IsValid locked
locked-IsValid = record { distinct = (tt, tt); known = (omega arith, tt); blocks = omega arith }

-- "b", as a BCPL string: a file of the queue
abbrev queue_file_name : List ℕ
queue_file_name = 1 ∷ b'b' ∷ []

abbrev lock_request : Request
lock_request = locate_object 0 queue_file_name 5

abbrev two_locks : Handler Line
two_locks =
    grant_lock lock_request (record { address = 1; fl_access = 5; fl_key = some 1 })
      (record locked { requests = 2; lock_blocks = 2 })

locate_run : do_locate_object all_ok 0 queue_file_name 5 locked ≡ some two_locks
unfolding do_locate_object locate target grant_target grant_file find_name bcpl_to_c_str until_nul
    has_double_slash same_bytes queue_name after_last or_else
locate_run = refl

do_locate_object_example : IsValid two_locks
do_locate_object_example =
    do_locate_object-IsValid all_ok 0 queue_file_name 5 locked two_locks locked-IsValid locate_run

on_free_lock_example :
    IsValid (on_free_lock (some 0) locked)
    × (find_lock_in_list 0 (on_free_lock (some 0) locked).locks ≡ none)
on_free_lock_example = on_free_lock-IsValid 0 locked locked-IsValid
