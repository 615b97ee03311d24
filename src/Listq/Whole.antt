-- ===== src/Listq/Whole.antt =====
-- listq.c on top of the handler: the command without an argument, from Lock to UnLock.
use cwnet.Base.{
  ℕ, suc, ◌+◌, ◌-◌, ◌≡◌, ◌<◌, refl, ap, ◌∙◌, List, [], ◌∷◌, Option, none, some, Bool, true, false,
  ◌>>=◌, length, map, arith,
}
use cwnet.Handler.Names.{bcpl_to_c_str, until_nul, has_double_slash, same_bytes}
use cwnet.Handler.State.{
  FileTransfer, Request, locate_object, free_lock, examine_object, FileInfo, LinkedLock,
  return_dos_packet, dostrue, dosfalse, transfer, node,
}
use cwnet.Handler.Locks.{
  net_device, do_locate_object, do_examine_object, on_free_lock, find_lock_in_list, remove_lock,
  grant_lock, return_info, file_info, root_info, examine_root, locate, grant_target, target,
  error_no_more_entries, error_invalid_lock,
}
use cwnet.Handler.Leases.{IsValid, Known-Lacks, find_lock_in_list-last, remove_lock-last}
use cwnet.Handler.Network.{NetIo}
use cwnet.Handler.Loop.{on_request}
use cwnet.Listq.{Dos, Line, list_queue, with_lock, listq, clear_info}
use cwnet.Listq.Listing.{H, Locked, Kept, Kept-Locked, loop_lists, last_reply-append, file_line}

module _ {net : NetIo} {alloc_ok : ℕ → Bool} (dos : Dos net alloc_ok) where
  -- The lock on the queue, and the handler that has given it out.
  abbrev new_lock : H dos → LinkedLock
  new_lock h = record { address = h.requests; fl_access = dos.access_read; fl_key = none }

  lock_packet : Request
  lock_packet = locate_object 0 (4 ∷ net_device) dos.access_read

  abbrev granted : H dos → H dos
  granted h =
      grant_lock lock_packet (new_lock h)
        (record h { requests = suc h.requests; lock_blocks = h.lock_blocks + 1 })

  queue_locked :
      (h : H dos)
      → alloc_ok h.requests ≡ true
      → do_locate_object alloc_ok 0 (4 ∷ net_device) dos.access_read h ≡ some (granted h)
  unfolding do_locate_object locate bcpl_to_c_str until_nul target has_double_slash same_bytes
      grant_target lock_packet
  queue_locked h memory = rw memory

  lock_granted :
      (h : H dos)
      → h.port ≡ []
      → alloc_ok h.requests ≡ true
      → dos.lock net_device h ≡ some (some h.requests, granted h)
  unfolding on_request grant_lock
  lock_granted h quiet memory =
      dos.lock_lem net_device h (granted h) _ quiet (queue_locked h memory)
        (last_reply-append h.replies _)

  granted-Locked : (h : H dos) → IsValid h → h.port ≡ [] → Locked dos h.requests (granted h)
  unfolding grant_lock
  granted-Locked h v quiet = record {
    entry = new_lock h;
    found =
        find_lock_in_list-last h.requests h.locks (new_lock h)
          (Known-Lacks h.requests h.requests h.locks (omega arith) v.known) refl;
    is_queue = refl;
    quiet = quiet;
  }

  examine_lock :
      (a : ℕ) (info : FileInfo) (h : H dos) (l : LinkedLock)
      → find_lock_in_list a h.locks ≡ some l
      → l.fl_key ≡ none
      → do_examine_object a info h ≡ some (examine_root (examine_object a info) h.transfers info h)
  unfolding do_examine_object
  examine_lock a info h l found queue =
      rw (found, do_examine_object)
        (ap
          (λ k. elim k [
            | none ↦ some (examine_root (examine_object a info) h.transfers info h)
            | some i ↦ transfer h i >>= λ f.
                some (return_info (examine_object a info) (file_info (node i) f info) h)
          ])
          queue)

  free_found :
      (a : ℕ) (h : H dos) (l : LinkedLock)
      → find_lock_in_list a h.locks ≡ some l
      → on_free_lock (some a) h
        ≡ return_dos_packet
            (free_lock (some a))
            dostrue
            0
            (record h { locks = remove_lock a h.locks; lock_blocks = h.lock_blocks - 1 })
  unfolding on_free_lock
  free_found a h l found =
      ap
        (λ o. elim o [
          | none ↦ return_dos_packet (free_lock (some a)) dosfalse error_invalid_lock h
          | some m ↦
              return_dos_packet (free_lock (some a)) dostrue 0
                (record h { locks = remove_lock a h.locks; lock_blocks = h.lock_blocks - 1 })
        ])
        found

  -- The lock is freed again.
  lock_freed :
      (h h₁ : H dos)
      → IsValid h
      → h₁.locks ≡ (granted h).locks
      → h₁.lock_blocks ≡ (granted h).lock_blocks
      → h₁.port ≡ []
      → (h₂ : H dos) × (dos.un_lock h.requests h₁ ≡ some h₂)
        × (h₂.locks ≡ h.locks)
        × (h₂.lock_blocks ≡ h.lock_blocks)
        × (h₂.transfers ≡ h₁.transfers)
  unfolding on_request return_dos_packet grant_lock
  lock_freed h h₁ v locks blocks quiet =
      let lacks = Known-Lacks h.requests h.requests h.locks (omega arith) v.known in
      let found : find_lock_in_list h.requests h₁.locks ≡ some (new_lock h) =
        ap (find_lock_in_list h.requests) locks
        ∙ find_lock_in_list-last h.requests h.locks (new_lock h) lacks refl in
      (
        return_dos_packet (free_lock (some h.requests)) dostrue 0 (record h₁ {
          locks = remove_lock h.requests h₁.locks;
          lock_blocks = h₁.lock_blocks - 1;
        }),
        dos.un_lock_lem h.requests h₁ _ quiet
            (ap some (free_found h.requests h₁ (new_lock h) found)),
        ap (remove_lock h.requests) locks
            ∙ remove_lock-last h.requests h.locks (new_lock h) lacks refl,
        omega (arith, blocks),
        refl,
      )

  -- What listq prints: a line for each file behind the heading, or nothing if there is no file.
  abbrev pub shown : List FileTransfer → Option (List Line)
  shown [] = none
  shown (f ∷ fs) = some (map file_line (f ∷ fs))

  examined_root :
      (h : H dos) (fs : List FileTransfer)
      → IsValid h
      → h.port ≡ []
      → h.transfers ≡ fs
      → on_request net alloc_ok (examine_object h.requests clear_info) (granted h)
        ≡ some (examine_root (examine_object h.requests clear_info) fs clear_info (granted h))
  unfolding on_request grant_lock
  examined_root h fs v quiet e =
      let l = granted-Locked h v quiet in
      examine_lock h.requests clear_info (granted h) l.entry l.found l.is_queue
      ∙ ap
          (λ t. some (examine_root (examine_object h.requests clear_info) t clear_info (granted h)))
          e

  examined_files :
      (h : H dos) (f : FileTransfer) (fs : List FileTransfer)
      → IsValid h
      → h.port ≡ []
      → h.transfers ≡ f ∷ fs
      → let info = root_info (f ∷ fs) clear_info in
        dos.examine h.requests clear_info (granted h)
        ≡ some ((true, info), return_info (examine_object h.requests clear_info) info (granted h))
  unfolding grant_lock return_info examine_root
  examined_files h f fs v quiet e =
      dos.examine_lem h.requests clear_info (granted h) _ _ quiet
        (examined_root h (f ∷ fs) v quiet e) (last_reply-append (granted h).replies _)

  examined_none :
      (h : H dos)
      → IsValid h
      → h.port ≡ []
      → h.transfers ≡ []
      → dos.examine h.requests clear_info (granted h)
        ≡ some (
          (false, clear_info),
          return_dos_packet
              (examine_object h.requests clear_info)
              dosfalse
              error_no_more_entries
              (granted h),
        )
  unfolding grant_lock return_dos_packet examine_root
  examined_none h v quiet e =
      dos.examine_lem h.requests clear_info (granted h) _ _ quiet (examined_root h [] v quiet e)
        (last_reply-append (granted h).replies _)

  listed :
      (fuel : ℕ) (h : H dos) (fs : List FileTransfer)
      → IsValid h
      → h.port ≡ []
      → h.transfers ≡ fs
      → length fs < fuel
      → (h' : H dos) × (list_queue dos fuel h.requests (granted h) ≡ some (shown fs, h'))
        × (h'.locks ≡ h.locks)
        × (h'.lock_blocks ≡ h.lock_blocks)
        × (h'.transfers ≡ h.transfers)
  unfolding list_queue return_dos_packet return_info grant_lock root_info
  listed fuel h [] v quiet e enough =
      let h₁ =
        return_dos_packet (examine_object h.requests clear_info) dosfalse error_no_more_entries
          (granted h) in
      let (h₂, freed, locks, blocks, same) = lock_freed h h₁ v refl refl quiet in
      (h₂, rw (examined_none h v quiet e, freed), locks, blocks, same)
  listed fuel h (f ∷ fs) v quiet e enough =
      let info = root_info (f ∷ fs) clear_info in
      let h₁ = return_info (examine_object h.requests clear_info) info (granted h) in
      let kept : Kept dos (granted h) h₁ = record {
        locks_eq = refl;
        blocks_eq = refl;
        transfers_eq = refl;
        port_eq = refl;
      } in
      let (h₂, run, kept') =
        loop_lists dos fuel h.requests 0 (f ∷ fs) info h₁
          (Kept-Locked dos h.requests (granted h) h₁ kept (granted-Locked h v quiet)) e refl
          enough in
      let (h₃, freed, locks, blocks, same) =
        lock_freed h h₂ v kept'.locks_eq kept'.blocks_eq (kept'.port_eq ∙ quiet) in
      (
        h₃,
        rw (examined_files h f fs v quiet e, run, freed),
        locks,
        blocks,
        same ∙ kept'.transfers_eq,
      )

  -- On a handler with valid locks that waits for packets, and with memory for the lock and the
  -- FileInfoBlock, listq ends after one call of ExNext more than there are files in the queue. It
  -- prints the files in the order of the queue, each once, with its state and its error code (or
  -- nothing, if there is none), looks up each state within its table, and leaves the queue, the
  -- locks and the number of their blocks as they were.
  pub listq-shown :
      (fuel : ℕ) (h : H dos)
      → IsValid h
      → h.port ≡ []
      → alloc_ok h.requests ≡ true
      → length h.transfers < fuel
      → (h' : H dos) × (listq dos fuel true none h ≡ some (shown h.transfers, h'))
        × (h'.locks ≡ h.locks)
        × (h'.lock_blocks ≡ h.lock_blocks)
        × (h'.transfers ≡ h.transfers)
  unfolding listq with_lock
  listq-shown fuel h v quiet memory enough =
      let (h', run, locks, blocks, same) = listed fuel h h.transfers v quiet refl enough in
      (h', rw (lock_granted h quiet memory) run, locks, blocks, same)
