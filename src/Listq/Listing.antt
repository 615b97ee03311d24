-- ===== src/Listq/Listing.antt =====
-- listq.c on top of the handler: the whole queue is listed, and the lock is given back.
use cwnet.Base.{
  ℕ, zero, suc, ◌≡◌, ◌<◌, refl, ap, ◌∙◌, List, [], ◌∷◌, ◌++◌, none, some, Bool, true, false, ◌>>=◌,
  ltb, length, map, drop, get_elem?, arith, drop-eq-cons, length-drop, lt→ltb, le→ltb,
}
use cwnet.Handler.Names.{fib_name}
use cwnet.Handler.State.{
  Handler, FileTransfer, TransferState, queued, ready, wrq_sent, rrq_sent, data_sent, error,
  finished, Request, examine_next, Reply, FileInfo, NodePtr, node, list_tail, LinkedLock,
  return_dos_packet, dosfalse, transfer,
}
use cwnet.Handler.Locks.{
  do_examine_next, find_lock_in_list, return_info, file_info, next_node, list_entry,
  error_no_more_entries, error_invalid_lock, state_code,
}
use cwnet.Handler.Network.{NetIo}
use cwnet.Handler.Loop.{on_request}
use cwnet.Listq.{
  Dos, Line, StateName, s_queued, s_ready, s_wrq_sent, s_rrq_sent, s_data_sent, s_error, s_finished,
  state_tbl, line_of, list_loop, last_reply,
}

abbrev pub state_name : TransferState → StateName
state_name queued = s_queued
state_name ready = s_ready
state_name wrq_sent = s_wrq_sent
state_name rrq_sent = s_rrq_sent
state_name data_sent = s_data_sent
state_name error = s_error
state_name finished = s_finished

-- The line for a file.
abbrev pub file_line : FileTransfer → Line
file_line f = record {
  name = fib_name f.ftx_fname;
  state = state_name f.ftx_state;
  error = f.ftx_error;
}

state_tbl_name : (t : TransferState) → get_elem? state_tbl (state_code t) ≡ some (state_name t)
state_tbl_name queued = refl
state_tbl_name ready = refl
state_tbl_name wrq_sent = refl
state_tbl_name rrq_sent = refl
state_tbl_name data_sent = refl
state_tbl_name error = refl
state_tbl_name finished = refl

line_of-file_info :
    (key : NodePtr) (f : FileTransfer) (info : FileInfo)
    → line_of (file_info key f info) ≡ some (file_line f)
unfolding line_of file_info
line_of-file_info key f info =
    ap
      (λ o.
        o >>= λ s. some (record { name = fib_name f.ftx_fname; state = s; error = f.ftx_error }))
      (state_tbl_name f.ftx_state)

pub last_reply-append : (rs : List Reply) (r : Reply) → last_reply (rs ++ r ∷ []) ≡ some r
last_reply-append [] r = refl
last_reply-append (s ∷ []) r = refl
last_reply-append (s ∷ t ∷ rs) r = last_reply-append (t ∷ rs) r

-- The place behind `i` files of the queue, of which `fs` are left.
abbrev pub at_key : List FileTransfer → ℕ → NodePtr
at_key [] i = list_tail
at_key (f ∷ fs) i = node i

next_node-at_key :
    (queue : List FileTransfer) (i : ℕ) (fs : List FileTransfer)
    → drop (suc i) queue ≡ fs
    → next_node queue i ≡ at_key fs (suc i)
next_node-at_key queue i [] e =
    let past : ltb (suc i) (length queue) ≡ false =
      le→ltb _ _ (omega (arith, ap length e, length-drop (suc i) queue)) in
    rw past
next_node-at_key queue i (f ∷ fs) e =
    let inside : ltb (suc i) (length queue) ≡ true =
      lt→ltb _ _ (omega (arith, ap length e, length-drop (suc i) queue)) in
    rw inside

file_info_key :
    (key : NodePtr) (f : FileTransfer) (info : FileInfo) → (file_info key f info).disk_key ≡ key
unfolding file_info
file_info_key key f info = refl

module _ {net : NetIo} {alloc_ok : ℕ → Bool} (dos : Dos net alloc_ok) where
  abbrev pub H : Type 0
  H = Handler net.Net

  -- The lock on the queue is in the list.
  pub record Locked (a : ℕ) (h : H) : Type 0 where
    pub entry : LinkedLock
    pub found : find_lock_in_list a h.locks ≡ some entry
    pub is_queue : entry.fl_key ≡ none
    pub quiet : h.port ≡ []

  examine_next_lem :
      (a : ℕ) (info : FileInfo) (h : H) (l : LinkedLock)
      → find_lock_in_list a h.locks ≡ some l
      → l.fl_key ≡ none
      → do_examine_next a info h ≡ list_entry (examine_next a info) info.disk_key info h
  unfolding do_examine_next
  examine_next_lem a info h l found queue =
      rw (found, do_examine_next)
        (ap
          (λ k. elim k [
            | some i ↦ some (return_dos_packet (examine_next a info) dosfalse error_invalid_lock h)
            | none ↦ list_entry (examine_next a info) info.disk_key info h
          ])
          queue)

  list_entry_node :
      (p : Request) (i : ℕ) (f : FileTransfer) (info : FileInfo) (h : H)
      → get_elem? h.transfers i ≡ some f
      → list_entry p (node i) info h
        ≡ some (return_info p (file_info (next_node h.transfers i) f info) h)
  unfolding list_entry transfer
  list_entry_node p i f info h e =
      ap (λ o. o >>= λ g. some (return_info p (file_info (next_node h.transfers i) g info) h)) e

  next_entry :
      (a i : ℕ) (f : FileTransfer) (info : FileInfo) (h : H)
      → Locked a h
      → info.disk_key ≡ node i
      → get_elem? h.transfers i ≡ some f
      → let info' = file_info (next_node h.transfers i) f info in
        dos.ex_next a info h ≡ some ((true, info'), return_info (examine_next a info) info' h)
  unfolding on_request return_info
  next_entry a i f info h l key e =
      dos.ex_next_lem a info h _ _ l.quiet
        (examine_next_lem a info h l.entry l.found l.is_queue
          ∙ ap (λ k. list_entry (examine_next a info) k info h) key
          ∙ list_entry_node (examine_next a info) i f info h e)
        (last_reply-append h.replies _)

  no_more :
      (a : ℕ) (info : FileInfo) (h : H)
      → Locked a h
      → info.disk_key ≡ list_tail
      → dos.ex_next a info h
        ≡ some (
          (false, info),
          return_dos_packet (examine_next a info) dosfalse error_no_more_entries h,
        )
  unfolding on_request return_dos_packet list_entry
  no_more a info h l key =
      dos.ex_next_lem a info h _ _ l.quiet
        (examine_next_lem a info h l.entry l.found l.is_queue
          ∙ ap (λ k. list_entry (examine_next a info) k info h) key)
        (last_reply-append h.replies _)

  -- A listing leaves everything but the replies alone.
  pub record Kept (h h' : H) : Type 0 where
    pub locks_eq : h'.locks ≡ h.locks
    pub blocks_eq : h'.lock_blocks ≡ h.lock_blocks
    pub transfers_eq : h'.transfers ≡ h.transfers
    pub port_eq : h'.port ≡ h.port

  pub Kept-Locked : (a : ℕ) (h h' : H) → Kept h h' → Locked a h → Locked a h'
  Kept-Locked a h h' k l = record {
    entry = l.entry;
    found = ap (find_lock_in_list a) k.locks_eq ∙ l.found;
    is_queue = l.is_queue;
    quiet = k.port_eq ∙ l.quiet;
  }

  pub loop_lists :
      (fuel a i : ℕ) (fs : List FileTransfer) (info : FileInfo) (h : H)
      → Locked a h
      → drop i h.transfers ≡ fs
      → info.disk_key ≡ at_key fs i
      → length fs < fuel
      → (h' : H) × (list_loop dos fuel a info h ≡ some (map file_line fs, h')) × Kept h h'
  unfolding list_loop
  loop_lists zero a i fs info h l rest key enough = absurd (omega arith)
  loop_lists (suc fuel) a i [] info h l rest key enough = (
    return_dos_packet (examine_next a info) dosfalse error_no_more_entries h,
    rw (no_more a info h l key),
    unfold return_dos_packet in
        record { locks_eq = refl; blocks_eq = refl; transfers_eq = refl; port_eq = refl },
  )
  loop_lists (suc fuel) a i (f ∷ fs) info h l rest key enough =
      let (here, behind) = drop-eq-cons i h.transfers rest in
      let info' = file_info (next_node h.transfers i) f info in
      let h₁ = return_info (examine_next a info) info' h in
      let kept : Kept h h₁ =
        unfold return_info in
        record { locks_eq = refl; blocks_eq = refl; transfers_eq = refl; port_eq = refl } in
      let (h', run, kept') =
        loop_lists fuel a (suc i) fs info' h₁ (Kept-Locked a h h₁ kept l)
          (ap (drop (suc i)) kept.transfers_eq ∙ behind)
          (file_info_key _ f info ∙ next_node-at_key h.transfers i fs behind) (omega arith) in
      (
        h',
        rw (next_entry a i f info h l key here, line_of-file_info, run),
        record {
          locks_eq = kept'.locks_eq ∙ kept.locks_eq;
          blocks_eq = kept'.blocks_eq ∙ kept.blocks_eq;
          transfers_eq = kept'.transfers_eq ∙ kept.transfers_eq;
          port_eq = kept'.port_eq ∙ kept.port_eq;
        },
      )
