-- ===== src/Handler/Answers.antt =====
-- The packets that are returned to clients.
pub mod Whole
use cwnet.Base.{
  ℕ, suc, ◌+◌, ◌-◌, ◌≡◌, refl, ◌∙◌, List, [], ◌∷◌, ◌++◌, Option, none, some, Bool, false,
  >>=-eq-some, Bool-cases, inl, inr, length, ◌==◌, some-eq, Option-cases, arith, subst,
}
use cwnet.Handler.Names.{bcpl_to_c_str, url_file_name}
use cwnet.Handler.State.{
  Handler, LinkedLock, Request, is_filesystem, find_output, write, end_file, locate_object,
  free_lock, examine_object, examine_next, die, unknown, Reply, FileInfo, NodePtr, node, list_tail,
  FileTransfer, return_dos_packet, send_internal_packet, transfer, set_transfer, set_error,
  Internal, send_next_file, file_failed, ready, holds_own, Result, number, without_serial, dosfalse,
  dostrue, lock_pointer,
}
use cwnet.Handler.Network.{NetIo}
use cwnet.Handler.Files.{do_find_output, do_write, new_buffer, write_failed, on_end}
use cwnet.Handler.Locks.{
  do_locate_object, locate, on_free_lock, do_examine_object, do_examine_next, examine_root,
  list_entry, return_info, find_lock_in_list, remove_lock, target, upload, queue, queue_file,
  find_name, grant_lock, grant_file, grant_target, Target,
}
use cwnet.Handler.Replies.{abort_io}
use cwnet.Handler.Loop.{on_request, on_die}

abbrev granted : Request → ℕ → Reply
granted r a = record { request = r; res1 = lock_pointer a; res2 = 0; handle = none; info = none }

abbrev opened : ℕ → List ℕ → Reply
opened i bstr = record {
  request = find_output bstr;
  res1 = dostrue;
  res2 = 0;
  handle = some i;
  info = none;
}

module _ {N : Type 0} where
  -- One reply, to the packet `r`, was added between `h` and `h'`.
  abbrev pub Answered : Request → Handler N → Handler N → Type 0
  Answered r h h' = (reply : Reply) × (h'.replies ≡ h.replies ++ reply ∷ []) × (reply.request ≡ r)

  return_dos_packet-Answered :
      (r : Request) (res : Result) (code : ℕ) (h : Handler N)
      → Answered r h (return_dos_packet r res code h)
  unfolding return_dos_packet
  return_dos_packet-Answered r res code h =
      (record { request = r; res1 = res; res2 = code; handle = none; info = none }, refl, refl)

  return_info-Answered :
      (r : Request) (info : FileInfo) (h : Handler N) → Answered r h (return_info r info h)
  unfolding return_info
  return_info-Answered r info h = (
    record { request = r; res1 = dostrue; res2 = 0; handle = none; info = some info },
    refl,
    refl,
  )

  send_internal_packet-replies :
      (type : Internal) (arg : Option ℕ) (h : Handler N) {h' : Handler N}
      → send_internal_packet type arg h ≡ some h'
      → h'.replies ≡ h.replies
  unfolding send_internal_packet
  send_internal_packet-replies type arg h e = elim (Bool-cases (holds_own h.port)) [
    | inl held ↦ cc (rw held at e)
    | inr free ↦ ground (arith, rw free at e)
  ]

  set_error-replies :
      (i code : ℕ) (h : Handler N) {h' : Handler N}
      → set_error i code h ≡ some h'
      → h'.replies ≡ h.replies
  unfolding set_error set_transfer
  set_error-replies i code h e =
      let (f, found, same) = >>=-eq-some (transfer h i) _ e in ground (arith, same)

  grant_file-Answered :
      (r : Request) (a mode : ℕ) (found : Option ℕ) (h : Handler N)
      → Answered r h (grant_file r a mode found h)
  unfolding grant_file grant_lock
  grant_file-Answered r a mode (some i) h = (granted r a, refl, refl)
  grant_file-Answered r a mode none h = return_dos_packet-Answered r dosfalse 205 h

  grant_target-Answered :
      (r : Request) (a mode : ℕ) (t : Target) (h : Handler N)
      → Answered r h (grant_target r a mode t h)
  unfolding grant_target grant_lock
  grant_target-Answered r a mode upload h = return_dos_packet-Answered r dosfalse 205 h
  grant_target-Answered r a mode queue h = (granted r a, refl, refl)
  grant_target-Answered r a mode (queue_file name) h =
      grant_file-Answered r a mode (find_name name h.transfers) h

  locate-Answered :
      (r : Request) (a dir : ℕ) (fname : List ℕ) (mode : ℕ) (h : Handler N)
      → Answered r h (locate r a dir fname mode h)
  unfolding locate
  locate-Answered r a dir fname mode h = elim (Bool-cases (dir == 0)) [
    | inl top ↦ rw top (grant_target-Answered r a mode (target fname) h)
    | inr sub ↦ rw sub (return_dos_packet-Answered r dosfalse 236 h)
  ]

  do_locate_object-Answered :
      (alloc_ok : ℕ → Bool) (dir : ℕ) (bstr : List ℕ) (mode : ℕ) (h : Handler N) {h' : Handler N}
      → do_locate_object alloc_ok dir bstr mode h ≡ some h'
      → Answered (locate_object dir bstr mode) h h'
  unfolding do_locate_object
  do_locate_object-Answered alloc_ok dir bstr mode h e =
      let r = locate_object dir bstr mode in
      let (fname, name, done) = >>=-eq-some (bcpl_to_c_str bstr) _ e in
      elim (Bool-cases (alloc_ok h.requests)) [
        | inl memory ↦ subst (Answered r h) (some-eq (rw memory at done)) (
            locate-Answered r h.requests dir fname mode
              (record h { requests = suc h.requests; lock_blocks = h.lock_blocks + 1 }))
        | inr full ↦
            subst (Answered r h) (some-eq (rw full at done))
              (return_dos_packet-Answered r dosfalse 103 (record h { requests = suc h.requests }))
      ]

  on_free_lock-Answered :
      (a : Option ℕ) (h : Handler N) → Answered (free_lock a) h (on_free_lock a h)
  unfolding on_free_lock
  on_free_lock-Answered none h = return_dos_packet-Answered (free_lock none) dostrue 0 h
  on_free_lock-Answered (some a) h = elim (Option-cases (find_lock_in_list a h.locks)) [
    | inl missing ↦
        rw (missing, on_free_lock) (return_dos_packet-Answered (free_lock (some a)) dosfalse 211 h)
    | inr (l, found) ↦
        rw (found, on_free_lock)
          (return_dos_packet-Answered (free_lock (some a)) dostrue 0
            (record h { locks = remove_lock a h.locks; lock_blocks = h.lock_blocks - 1 }))
  ]

  list_entry-Answered :
      (r : Request) (key : NodePtr) (info : FileInfo) (h : Handler N) {h' : Handler N}
      → list_entry r key info h ≡ some h'
      → Answered r h h'
  unfolding list_entry
  list_entry-Answered r list_tail info h e =
      subst (Answered r h) (some-eq e) (return_dos_packet-Answered r dosfalse 232 h)
  list_entry-Answered r (node i) info h e =
      let (f, found, done) = >>=-eq-some (transfer h i) _ e in
      subst (Answered r h) (some-eq done) (return_info-Answered r _ h)
