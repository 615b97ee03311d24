-- ===== src/Listq.antt =====
-- listq.c, the command that prints the queue: the names of the files with their states and errors,
-- by way of the calls of dos.library on the handler.
pub mod Listing
pub mod Whole
use cwnet.Base.{
  ℕ, zero, suc, ◌+◌, ◌-◌, ◌%◌, ◌^◌, ◌≡◌, min, List, [], ◌∷◌, ◌++◌, Option, none, some, Bool, true,
  false, ◌>>=◌, if◌then◌else◌, ltb, leb, length, take, get_elem?,
}
use cwnet.Handler.Names.{FibName}
use cwnet.Handler.State.{
  Handler, Request, locate_object, free_lock, examine_object, examine_next, Reply, FileInfo,
  list_tail, Result, number, lock_pointer,
}
use cwnet.Handler.Locks.{net_device}
use cwnet.Handler.Network.{NetIo}
use cwnet.Handler.Loop.{on_request}

abbrev pub max_path_len : ℕ
max_path_len = 256

-- The strings of `state_tbl`, by their index.
pub data StateName : Type 0 where
  s_queued s_ready s_wrq_sent s_rrq_sent s_data_sent s_error s_finished : StateName

abbrev pub state_tbl : List StateName
state_tbl = s_queued ∷ s_ready ∷ s_wrq_sent ∷ s_rrq_sent ∷ s_data_sent ∷ s_error ∷ s_finished ∷ []

-- What a line of the output shows.
pub record Line : Type 0 where
  pub name : FibName
  pub state : StateName
  pub error : ℕ

abbrev pub last_reply : List Reply → Option Reply
last_reply [] = none
last_reply (r ∷ []) = some r
last_reply (r ∷ s ∷ rest) = last_reply (s ∷ rest)

-- What the call that sent the packet makes of the reply.
abbrev pub given_lock : Result → Option ℕ
given_lock (lock_pointer a) = some a
given_lock (number n) = none

abbrev pub is_true : Result → Bool
is_true (number zero) = false
is_true (number (suc n)) = true
is_true (lock_pointer a) = true

abbrev pub filled_info : FileInfo → Option FileInfo → FileInfo
filled_info info none = info
filled_info info (some new) = new

-- The calls of dos.library: each sends a packet to the handler, which has none on its port, and
-- waits until it is returned. A name goes into the packet as a BCPL string.
pub record Dos (net : NetIo) (alloc_ok : ℕ → Bool) : Type 0 where
  pub lock : List ℕ → Handler net.Net → Option (Option ℕ × Handler net.Net)
  pub examine : ℕ → FileInfo → Handler net.Net → Option ((Bool × FileInfo) × Handler net.Net)
  pub ex_next : ℕ → FileInfo → Handler net.Net → Option ((Bool × FileInfo) × Handler net.Net)
  pub un_lock : ℕ → Handler net.Net → Option (Handler net.Net)
  pub access_read : ℕ
  pub lock_lem :
      (name : List ℕ) (h h' : Handler net.Net) (r : Reply)
      → h.port ≡ []
      → on_request net alloc_ok (locate_object 0 (length name ∷ name) access_read) h ≡ some h'
      → last_reply h'.replies ≡ some r
      → lock name h ≡ some (given_lock r.res1, h')
  pub examine_lem :
      (a : ℕ) (info : FileInfo) (h h' : Handler net.Net) (r : Reply)
      → h.port ≡ []
      → on_request net alloc_ok (examine_object a info) h ≡ some h'
      → last_reply h'.replies ≡ some r
      → examine a info h ≡ some ((is_true r.res1, filled_info info r.info), h')
  pub ex_next_lem :
      (a : ℕ) (info : FileInfo) (h h' : Handler net.Net) (r : Reply)
      → h.port ≡ []
      → on_request net alloc_ok (examine_next a info) h ≡ some h'
      → last_reply h'.replies ≡ some r
      → ex_next a info h ≡ some ((is_true r.res1, filled_info info r.info), h')
  pub un_lock_lem :
      (a : ℕ) (h h' : Handler net.Net)
      → h.port ≡ []
      → on_request net alloc_ok (free_lock (some a)) h ≡ some h'
      → un_lock a h ≡ some h'

-- The FileInfoBlock as AllocVec clears it.
abbrev pub clear_info : FileInfo
clear_info = record {
  disk_key = list_tail;
  entry_type = 0;
  protection = 0;
  size = 0;
  file_name = record { length_byte = 0; chars = [] };
}

-- A line for an entry, with `none` for an index outside `state_tbl`.
unfoldable pub line_of : FileInfo → Option Line
line_of info = do
  state ← get_elem? state_tbl info.protection
  some (record { name = info.file_name; state = state; error = info.size })

-- The path of a file: strcat's bound is `MAX_PATH_LEN - strlen(argv[1]) - 5`, as a size_t.
unfoldable pub path_of : List ℕ → Option (List ℕ)
path_of name =
    let bound = (max_path_len + 2 ^ 32 - length name - 5) % 2 ^ 32 in
    if leb (5 + min bound (length name)) max_path_len
    then some (net_device ++ take bound name)
    else none

module _ {net : NetIo} {alloc_ok : ℕ → Bool} (dos : Dos net alloc_ok) where
  -- The `while` loop, with `none` for a loop that has run through its fuel.
  unfoldable pub list_loop :
      ℕ → ℕ → FileInfo → Handler net.Net → Option (List Line × Handler net.Net)
  list_loop zero a info h = none
  list_loop (suc fuel) a info h = do
    step ← dos.ex_next a info h
    let ((more, info'), h') = step
    let rest = line_of info' >>= λ line.
        list_loop fuel a info' h' >>= λ others. some (line ∷ others.0, others.1)
    if more then rest else some ([], h')

  -- The branch without an argument, with the lock, from Examine to UnLock; `none` for no output.
  unfoldable pub list_queue :
      ℕ → ℕ → Handler net.Net → Option (Option (List Line) × Handler net.Net)
  list_queue fuel a h = do
    examined ← dos.examine a clear_info h
    let ((ok, info), h') = examined
    let listed = list_loop fuel a info h' >>= λ printed.
        dos.un_lock a printed.1 >>= λ h''. some (some printed.0, h'')
    let nothing = dos.un_lock a h' >>= λ h''. some (none, h'')
    if ok then listed else nothing

  -- The branch for one file.
  unfoldable pub list_file : ℕ → Handler net.Net → Option (Option (List Line) × Handler net.Net)
  list_file a h = do
    examined ← dos.examine a clear_info h
    let ((ok, info), h') = examined
    let listed = line_of info >>= λ line. dos.un_lock a h' >>= λ h''. some (some (line ∷ []), h'')
    let nothing = dos.un_lock a h' >>= λ h''. some (none, h'')
    if ok then listed else nothing

  -- The branches behind the call of Lock.
  unfoldable pub with_lock :
      Option ℕ
      → (ℕ → Handler net.Net → Option (Option (List Line) × Handler net.Net))
      → Handler net.Net
      → Option (Option (List Line) × Handler net.Net)
  with_lock none body h = some (none, h)
  with_lock (some a) body h = body a h

  -- `fib_ok` says whether AllocVec has memory for the FileInfoBlock; `arg` is `argv[1]`.
  unfoldable pub listq :
      ℕ → Bool → Option (List ℕ) → Handler net.Net → Option (Option (List Line) × Handler net.Net)
  listq fuel false arg h = some (none, h)
  listq fuel true none h = do
    locked ← dos.lock net_device h
    with_lock locked.0 (list_queue fuel) locked.1
  listq fuel true (some name) h = do
    path ← path_of name
    locked ← dos.lock path h
    with_lock locked.0 list_file locked.1
