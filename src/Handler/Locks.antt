-- ===== src/Handler/Locks.antt =====
-- The locks and the listing of the queue: do_locate_object, do_examine_object and do_examine_next
-- of dos.c, and ACTION_FREE_LOCK of handler.c. A lock's address is the number of the request that
-- its memory came from; `lock_blocks` counts the LinkedLocks that are allocated.
use cwnet.Base.{
  ℕ, suc, ◌+◌, ◌-◌, List, [], ◌∷◌, ◌++◌, Option, none, some, Bool, ◌>>=◌, if◌then◌else◌, ◌==◌,
  length, ltb,
}
use cwnet.Protocol.{error_no_free_store}
use cwnet.Handler.Names.{bcpl_to_c_str, has_double_slash, same_bytes, queue_name, fib_name}
use cwnet.Handler.State.{
  FileTransfer, TransferState, queued, ready, wrq_sent, rrq_sent, data_sent, error, finished,
  Handler, LinkedLock, NodePtr, node, list_tail, FileInfo, Request, locate_object, free_lock,
  examine_object, examine_next, lock_pointer, dosfalse, dostrue, return_dos_packet, transfer,
}

abbrev pub error_object_not_found : ℕ
error_object_not_found = 205

abbrev pub error_invalid_lock : ℕ
error_invalid_lock = 211

abbrev pub error_no_more_entries : ℕ
error_no_more_entries = 232

abbrev pub error_not_implemented : ℕ
error_not_implemented = 236

-- "net:"
abbrev pub net_device : List ℕ
net_device = b'n' ∷ b'e' ∷ b't' ∷ b':' ∷ []

-- The value of the constants S_QUEUED to S_FINISHED.
abbrev pub state_code : TransferState → ℕ
state_code queued = 0
state_code ready = 1
state_code wrq_sent = 2
state_code rrq_sent = 3
state_code data_sent = 4
state_code error = 5
state_code finished = 6

unfoldable pub find_lock_in_list : ℕ → List LinkedLock → Option LinkedLock
find_lock_in_list a [] = none
find_lock_in_list a (l ∷ ls) = if l.address == a then some l else find_lock_in_list a ls

-- `Remove`
unfoldable pub remove_lock : ℕ → List LinkedLock → List LinkedLock
remove_lock a [] = []
remove_lock a (l ∷ ls) = if l.address == a then ls else l ∷ remove_lock a ls

find_from : ℕ → List ℕ → List FileTransfer → Option ℕ
find_from i name [] = none
find_from i name (f ∷ fs) =
    if same_bytes f.ftx_fname name then some i else find_from (suc i) name fs

-- `FindName`
unfoldable pub find_name : List ℕ → List FileTransfer → Option ℕ
unfolding find_from same_bytes
find_name = find_from 0

-- What a full name asks for: a file that is yet to be sent, the queue, or a file of the queue.
pub data Target : Type 0 where
  upload : Target
  queue : Target
  queue_file : List ℕ → Target

unfoldable pub target : List ℕ → Target
unfolding has_double_slash same_bytes queue_name
target fname =
    if has_double_slash fname
    then upload
    else if same_bytes fname net_device
    then queue
    else queue_file (queue_name fname)

abbrev pub first_node : List FileTransfer → NodePtr
first_node [] = list_tail
first_node (f ∷ fs) = node 0

-- `ln_Succ`
abbrev pub next_node : List FileTransfer → ℕ → NodePtr
next_node fs i = if ltb (suc i) (length fs) then node (suc i) else list_tail

-- The entry of the queue's directory: ST_ROOT is 1, and the protection bits are read, write, execute.
unfoldable pub root_info : List FileTransfer → FileInfo → FileInfo
root_info fs info = record info {
  disk_key = first_node fs;
  entry_type = 1;
  protection = 14;
  size = 0;
  file_name = record (info.file_name) { length_byte = 0 };
}

-- The entry of a file: the protection bits are its state, the size its error code.
unfoldable pub file_info : NodePtr → FileTransfer → FileInfo → FileInfo
unfolding fib_name
file_info key f info = record info {
  disk_key = key;
  protection = state_code f.ftx_state;
  size = f.ftx_error;
  file_name = fib_name f.ftx_fname;
}

module _ {N : Type 0} where
  -- A lock is given out, and put into the list.
  unfoldable pub grant_lock : Request → LinkedLock → Handler N → Handler N
  grant_lock p l h = record h {
    locks = h.locks ++ l ∷ [];
    replies =
        h.replies
        ++ (record {
          request = p;
          res1 = lock_pointer l.address;
          res2 = 0;
          handle = none;
          info = none;
        })
          ∷ [];
  }

  -- A lock on the file that FindName has found.
  unfoldable pub grant_file : Request → ℕ → ℕ → Option ℕ → Handler N → Handler N
  unfolding grant_lock return_dos_packet
  grant_file p a mode (some i) h =
      grant_lock p (record { address = a; fl_access = mode; fl_key = some i }) h
  grant_file p a mode none h = return_dos_packet p dosfalse error_object_not_found h

  -- The branches on the name.
  unfoldable pub grant_target : Request → ℕ → ℕ → Target → Handler N → Handler N
  unfolding grant_lock grant_file find_name return_dos_packet
  grant_target p a mode upload h = return_dos_packet p dosfalse error_object_not_found h
  grant_target p a mode queue h =
      grant_lock p (record { address = a; fl_access = mode; fl_key = none }) h
  grant_target p a mode (queue_file name) h = grant_file p a mode (find_name name h.transfers) h

  -- The branches on the lock and name arguments, with the new LinkedLock at `a`.
  unfoldable pub locate : Request → ℕ → ℕ → List ℕ → ℕ → Handler N → Handler N
  unfolding grant_target target return_dos_packet
  locate p a dir fname mode h =
      if dir == 0
      then grant_target p a mode (target fname) h
      else return_dos_packet p dosfalse error_not_implemented h

  -- `dir` is the lock argument, 0 for none.
  unfoldable pub do_locate_object : (ℕ → Bool) → ℕ → List ℕ → ℕ → Handler N → Option (Handler N)
  unfolding locate bcpl_to_c_str
  do_locate_object alloc_ok dir bstr mode h = do
    fname ← bcpl_to_c_str bstr
    let p = locate_object dir bstr mode
    let h' : Handler N = record h { requests = suc h.requests }
    some (
        if alloc_ok h.requests
        then locate p h.requests dir fname mode (record h' { lock_blocks = h.lock_blocks + 1 })
        else return_dos_packet p dosfalse error_no_free_store h')

  -- case ACTION_FREE_LOCK
  unfoldable pub on_free_lock : Option ℕ → Handler N → Handler N
  unfolding find_lock_in_list remove_lock return_dos_packet
  on_free_lock none h = return_dos_packet (free_lock none) dostrue 0 h
  on_free_lock (some a) h = elim (find_lock_in_list a h.locks) [
    | none ↦ return_dos_packet (free_lock (some a)) dosfalse error_invalid_lock h
    | some l ↦
        return_dos_packet (free_lock (some a)) dostrue 0
          (record h { locks = remove_lock a h.locks; lock_blocks = h.lock_blocks - 1 })
  ]

  -- A packet returned with a FileInfoBlock.
  unfoldable pub return_info : Request → FileInfo → Handler N → Handler N
  return_info p info h = record h {
    replies =
        h.replies
        ++ (record { request = p; res1 = dostrue; res2 = 0; handle = none; info = some info }) ∷ [];
  }

  unfoldable pub examine_root : Request → List FileTransfer → FileInfo → Handler N → Handler N
  unfolding return_info return_dos_packet root_info
  examine_root p [] info h = return_dos_packet p dosfalse error_no_more_entries h
  examine_root p (f ∷ fs) info h = return_info p (root_info (f ∷ fs) info) h

  unfoldable pub do_examine_object : ℕ → FileInfo → Handler N → Option (Handler N)
  unfolding find_lock_in_list return_info return_dos_packet examine_root transfer file_info
  do_examine_object a info h =
      let p = examine_object a info in
      elim (find_lock_in_list a h.locks) [
        | none ↦ some (return_dos_packet p dosfalse error_invalid_lock h)
        | some l ↦ elim l.fl_key [
          | none ↦ some (examine_root p h.transfers info h)
          | some i ↦ transfer h i >>= λ f. some (return_info p (file_info (node i) f info) h)
        ]
      ]

  -- The entry at `disk_key`, which is moved to the next one.
  unfoldable pub list_entry : Request → NodePtr → FileInfo → Handler N → Option (Handler N)
  unfolding return_info return_dos_packet transfer file_info
  list_entry p list_tail info h = some (return_dos_packet p dosfalse error_no_more_entries h)
  list_entry p (node i) info h =
      transfer h i >>= λ f. some (return_info p (file_info (next_node h.transfers i) f info) h)

  unfoldable pub do_examine_next : ℕ → FileInfo → Handler N → Option (Handler N)
  unfolding find_lock_in_list list_entry
  do_examine_next a info h =
      let p = examine_next a info in
      elim (find_lock_in_list a h.locks) [
        | none ↦ some (return_dos_packet p dosfalse error_invalid_lock h)
        | some l ↦ elim l.fl_key [
          | some i ↦ some (return_dos_packet p dosfalse error_invalid_lock h)
          | none ↦ list_entry p info.disk_key info h
        ]
      ]
