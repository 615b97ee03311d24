-- ===== src/Examples/Starting.antt =====
-- A handler from its start to ACTION_DIE, listq on a queue of two files, and
-- the removal of the handler.
use cwnet.Base.{List, ◌≡◌, refl, [], ◌∷◌, none, some, true, false, arith, ◌>>=◌, length}
use cwnet.Handler.State.{
  own, dostrue, number, Message, client, find_output, write, end_file, die, Handler, ready,
  finished, locate_object, examine_object, examine_next, free_lock,
}
use cwnet.Handler.Names.{same_bytes}
use cwnet.Handler.Files.{new_buffer}
use cwnet.Handler.Accept.{all_ok}
use cwnet.Handler.Loop.{on_request}
use cwnet.Handler.Transfer.{file_at}
use cwnet.Listq.{Dos, given_lock, is_true, filled_info, last_reply, listq}
use cwnet.Listq.Whole.{shown, listq-shown}
use cwnet.Examples.Sessions.{direct, quiet, Line, url}
use cwnet.Unmount.{DosList, System, net_handler, other, rom, ram, null, unmount_main, is_list}
use cwnet.Unmount.Removal.{Removed, unmount_main-Removed}
use cwnet.Startup.{Machine, Boot}

abbrev all_granted : Machine
all_granted = record { grants = λ r. true; configures = true }

-- A client writes a file, and then the handler is told to end.
abbrev last_messages : List Message
last_messages =
    client (find_output (7 ∷ url))
    ∷ client (write 0 (1 ∷ 2 ∷ []))
    ∷ client (end_file 0)
    ∷ client die
    ∷ []

abbrev cold : Boot
cold = record {
  held = [];
  serial_name = none;
  timer_name = none;
  xdisabled = false;
  term_array = [];
  dn_task = false;
  started = false;
}

-- The state in which the loop ends: the transfer has not begun.
abbrev told_to_end : Handler Line
told_to_end = record quiet {
  running = false;
  dn_task = false;
  requests = 3;
  transfers = file_at (b'f' ∷ []) ready 0 0 (new_buffer (1 ∷ 2 ∷ []) ∷ []) ∷ [];
  port = own ∷ [];
  ftx = some 0;
  replies =
      record {
        request = find_output (7 ∷ url);
        res1 = dostrue;
        res2 = 0;
        handle = some 0;
        info = none;
      }
      ∷ record {
        request = write 0 (1 ∷ 2 ∷ []);
        res1 = number 2;
        res2 = 0;
        handle = none;
        info = none;
      }
      ∷ record { request = end_file 0; res1 = dostrue; res2 = 0; handle = none; info = none }
      ∷ record { request = die; res1 = dostrue; res2 = 0; handle = none; info = none }
      ∷ [];
}

-- The calls as they send their packets.
abbrev library : Dos direct all_ok
library = record {
  lock = λ name h. on_request direct all_ok (locate_object 0 (length name ∷ name) 5) h >>= λ h'.
      last_reply h'.replies >>= λ r. some (given_lock r.res1, h');
  examine = λ a info h. on_request direct all_ok (examine_object a info) h >>= λ h'.
      last_reply h'.replies >>= λ r. some ((is_true r.res1, filled_info info r.info), h');
  ex_next = λ a info h. on_request direct all_ok (examine_next a info) h >>= λ h'.
      last_reply h'.replies >>= λ r. some ((is_true r.res1, filled_info info r.info), h');
  un_lock = λ a h. on_request direct all_ok (free_lock (some a)) h;
  access_read = 5;
  lock_lem = λ name h h' r quiet run last. rw (run, last);
  examine_lem = λ a info h h' r quiet run last. rw (run, last);
  ex_next_lem = λ a info h h' r quiet run last. rw (run, last);
  un_lock_lem = λ a h h' quiet run. run;
}

abbrev two_files : Handler Line
two_files = record quiet {
  transfers = file_at (b'a' ∷ []) finished 1 0 [] ∷ file_at (b'b' ∷ []) ready 0 0 [] ∷ [];
}

listq_example :
    (h' : Handler Line) × (listq library 3 true none two_files
      ≡ some (shown library two_files.transfers, h'))
    × (h'.locks ≡ [])
    × (h'.lock_blocks ≡ 0)
    × (h'.transfers ≡ two_files.transfers)
listq_example =
    listq-shown library 3 two_files (record { distinct = tt; known = tt; blocks = omega arith })
      refl refl (omega arith)

abbrev disk : DosList
disk = record {
  address = 1;
  dol_name = 3 ∷ b'D' ∷ b'H' ∷ b'0' ∷ [];
  dol_type = 0;
  process = other false;
  seg_list = rom;
  handler_name = null;
}

abbrev net_device_node : DosList
net_device_node = record {
  address = 2;
  dol_name = 3 ∷ b'n' ∷ b'e' ∷ b't' ∷ [];
  dol_type = 0;
  process = net_handler;
  seg_list = ram;
  handler_name = ram;
}

abbrev mounted : System Line
mounted = record {
  dev_info = disk ∷ net_device_node ∷ [];
  handler = quiet;
  ports = 0;
  packets = 0;
  freed = [];
  shown = [];
}

unmount_main_example :
    Removed direct all_ok true
      (unmount_main direct all_ok 1 true true ((b'n' ∷ b'e' ∷ b't' ∷ b':' ∷ []) ∷ []) mounted)
      mounted
      net_device_node
      (disk ∷ [])
      quiet.net
unfolding is_list same_bytes
unmount_main_example =
    unmount_main-Removed direct all_ok 0 true true (b'n' ∷ b'e' ∷ b't' ∷ []) b':' (disk ∷ []) []
      net_device_node mounted quiet.net refl refl
      ((b'D' ∷ b'H' ∷ b'0' ∷ [], ([], refl, omega arith), refl), tt) ([], refl, omega arith) refl
      refl refl refl refl
