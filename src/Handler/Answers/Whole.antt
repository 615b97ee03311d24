-- ===== src/Handler/Answers/Whole.antt =====
-- Every packet of a client, with the listing, the writes and the shutdown.
use cwnet.Base.{
  ℕ, suc, ◌≡◌, refl, ◌∙◌, List, [], ◌∷◌, ◌++◌, Option, none, some, Bool, false, >>=-eq-some,
  Bool-cases, inl, inr, length, some-eq, Option-cases, subst,
}
use cwnet.Handler.Names.{bcpl_to_c_str, url_file_name}
use cwnet.Handler.State.{
  Handler, LinkedLock, Request, is_filesystem, find_output, write, end_file, locate_object,
  free_lock, examine_object, examine_next, die, unknown, FileInfo, FileTransfer, return_dos_packet,
  send_internal_packet, transfer, set_transfer, set_error, Internal, send_next_file, file_failed,
  ready, number, without_serial, dosfalse, dostrue,
}
use cwnet.Handler.Network.{NetIo}
use cwnet.Handler.Files.{do_find_output, do_write, new_buffer, write_failed, on_end}
use cwnet.Handler.Locks.{do_examine_object, do_examine_next, examine_root, find_lock_in_list}
use cwnet.Handler.Replies.{abort_io}
use cwnet.Handler.Loop.{on_request, on_die}
use cwnet.Handler.Answers.{
  Answered, do_locate_object-Answered, list_entry-Answered, on_free_lock-Answered, opened,
  return_dos_packet-Answered, return_info-Answered, send_internal_packet-replies, set_error-replies,
}

module _ {N : Type 0} where
  examine_root-Answered :
      (r : Request) (fs : List FileTransfer) (info : FileInfo) (h : Handler N)
      → Answered r h (examine_root r fs info h)
  unfolding examine_root
  examine_root-Answered r [] info h = return_dos_packet-Answered r dosfalse 232 h
  examine_root-Answered r (f ∷ fs) info h = return_info-Answered r _ h

  -- The two cases of a lock that may be there.
  examine-Answered :
      (r : Request) (lock : Option LinkedLock) (rest : LinkedLock → Option (Handler N))
      (h : Handler N) {h' : Handler N}
      → ((l : LinkedLock) → rest l ≡ some h' → Answered r h h')
      → elim lock [ none ↦ some (return_dos_packet r dosfalse 211 h) | some l ↦ rest l ] ≡ some h'
      → Answered r h h'
  examine-Answered r none rest h next e =
      subst (Answered r h) (some-eq e) (return_dos_packet-Answered r dosfalse 211 h)
  examine-Answered r (some l) rest h next e = next l e

  do_examine_object-Answered :
      (a : ℕ) (info : FileInfo) (h : Handler N) {h' : Handler N}
      → do_examine_object a info h ≡ some h'
      → Answered (examine_object a info) h h'
  unfolding do_examine_object
  do_examine_object-Answered a info h {h'} e =
      let r = examine_object a info in
      examine-Answered r (find_lock_in_list a h.locks) _ h
        (λ l done. elim (Option-cases l.fl_key) [
          | inl root ↦
              subst (Answered r h) (some-eq (rw root at done))
                (examine_root-Answered r h.transfers info h)
          | inr (i, file) ↦
              let (f, found, same) = >>=-eq-some (transfer h i) _ (rw file at done) in
              subst (Answered r h) (some-eq same) (return_info-Answered r _ h)
        ])
        e

  do_examine_next-Answered :
      (a : ℕ) (info : FileInfo) (h : Handler N) {h' : Handler N}
      → do_examine_next a info h ≡ some h'
      → Answered (examine_next a info) h h'
  unfolding do_examine_next
  do_examine_next-Answered a info h {h'} e =
      let r = examine_next a info in
      examine-Answered r (find_lock_in_list a h.locks) _ h
        (λ l done. elim (Option-cases l.fl_key) [
          | inl root ↦ list_entry-Answered r info.disk_key info h (rw root at done)
          | inr (i, file) ↦
              subst (Answered r h) (some-eq (rw file at done))
                (return_dos_packet-Answered r dosfalse 211 h)
        ])
        e

  -- The internal packet is sent behind the answer.
  sent-Answered :
      (r : Request) (type : Internal) (arg : Option ℕ) (h h₁ h₂ : Handler N)
      → Answered r h h₁
      → send_internal_packet type arg h₁ ≡ some h₂
      → Answered r h h₂
  sent-Answered r type arg h h₁ h₂ (reply, added, about) e =
      (reply, send_internal_packet-replies type arg h₁ e ∙ added, about)

  on_end-Answered : (i : ℕ) (h h' : Handler N) → on_end i h ≡ some h' → Answered (end_file i) h h'
  unfolding on_end set_transfer
  on_end-Answered i h h' e =
      let (f, found, sent) = >>=-eq-some (transfer h i) _ e in
      sent-Answered (end_file i) send_next_file none h
        (set_transfer i (record f { ftx_state = ready })
          (return_dos_packet (end_file i) dostrue 0 (record h { ftx = some i })))
        h' (return_dos_packet-Answered (end_file i) dostrue 0 (record h { ftx = some i })) sent

  write_failed-Answered :
      (i : ℕ) (bytes : List ℕ) (h h' : Handler N)
      → write_failed i bytes h ≡ some h'
      → Answered (write i bytes) h h'
  unfolding write_failed
  write_failed-Answered i bytes h h' e =
      let returned = return_dos_packet (write i bytes) dosfalse 103 h in
      let (h₁, failed, sent) = >>=-eq-some (set_error i 103 returned) _ e in
      let (reply, added, about) = return_dos_packet-Answered (write i bytes) dosfalse 103 h in
      sent-Answered (write i bytes) file_failed (some i) h h₁ h'
        (reply, set_error-replies i 103 returned failed ∙ added, about) sent

  do_write-Answered :
      (alloc_ok : ℕ → Bool) (i : ℕ) (bytes : List ℕ) (h : Handler N) {h' : Handler N}
      → do_write alloc_ok i bytes h ≡ some h'
      → Answered (write i bytes) h h'
  unfolding do_write set_transfer
  do_write-Answered alloc_ok i bytes h {h'} e =
      let one : Handler N = record h { requests = suc h.requests } in
      let two : Handler N = record h { requests = suc (suc h.requests) } in
      elim (Bool-cases (alloc_ok h.requests)) [
        | inl first ↦ elim (Bool-cases (alloc_ok (suc h.requests))) [
          | inl second ↦
              let (f, found, done) = >>=-eq-some (transfer h i) _ (rw (first, second) at e) in
              subst (Answered (write i bytes) h) (some-eq done) (
                return_dos_packet-Answered (write i bytes) (number (length bytes)) 0 (
                  set_transfer i (record f { ftx_buffers = f.ftx_buffers ++ new_buffer bytes ∷ [] })
                    two))
          | inr full ↦ write_failed-Answered i bytes two h' (rw (first, full) at e)
        ]
        | inr full ↦ write_failed-Answered i bytes one h' (rw full at e)
      ]

  do_find_output-Answered :
      (alloc_ok : ℕ → Bool) (bstr : List ℕ) (h : Handler N) {h' : Handler N}
      → do_find_output alloc_ok bstr h ≡ some h'
      → Answered (find_output bstr) h h'
  unfolding do_find_output
  do_find_output-Answered alloc_ok bstr h e =
      let (fname, string, e₁) = >>=-eq-some (bcpl_to_c_str bstr) _ e in
      let (name, url, done) = >>=-eq-some (url_file_name fname) _ e₁ in
      elim (Bool-cases (alloc_ok h.requests)) [
        | inl memory ↦
            subst (Answered (find_output bstr) h) (some-eq (rw memory at done))
              (opened (length h.transfers) bstr, refl, refl)
        | inr full ↦ subst (Answered (find_output bstr) h) (some-eq (rw full at done)) (
            return_dos_packet-Answered (find_output bstr) dosfalse 103
              (record h { requests = suc h.requests }))
      ]

module _ (net : NetIo) (alloc_ok : ℕ → Bool) where
  open net use {Net}

  on_die-Answered :
      (h : Handler Net) {h' : Handler Net} → on_die net alloc_ok h ≡ some h' → Answered die h h'
  unfolding on_die abort_io
  on_die-Answered h e =
      let (h₁, aborted, done) = >>=-eq-some (abort_io net h) _ e in
      let (n, ended, same) = >>=-eq-some (net.abort h.net) _ aborted in
      subst (Answered die h) (some-eq done) (
        subst
          (λ (t : Handler Net).
            Answered die h
              (return_dos_packet die dostrue 0 (record t { running = false; dn_task = false })))
          (some-eq same)
          (return_dos_packet-Answered die dostrue 0
            (record h { net = n; port = without_serial h.port; running = false; dn_task = false })))

  -- Whatever a client asks for, on every branch that returns exactly one packet is returned to a
  -- client, and it is the one that was received.
  pub on_request-Answered :
      (r : Request) (h h' : Handler Net) → on_request net alloc_ok r h ≡ some h' → Answered r h h'
  unfolding on_request
  on_request-Answered is_filesystem h h' e =
      subst (Answered is_filesystem h) (some-eq e)
        (return_dos_packet-Answered is_filesystem dostrue 0 h)
  on_request-Answered (find_output name) h h' e = do_find_output-Answered alloc_ok name h e
  on_request-Answered (write i bytes) h h' e = do_write-Answered alloc_ok i bytes h e
  on_request-Answered (end_file i) h h' e = on_end-Answered i h h' e
  on_request-Answered (locate_object dir name mode) h h' e =
      do_locate_object-Answered alloc_ok dir name mode h e
  on_request-Answered (free_lock a) h h' e =
      subst (Answered (free_lock a) h) (some-eq e) (on_free_lock-Answered a h)
  on_request-Answered (examine_object a info) h h' e = do_examine_object-Answered a info h e
  on_request-Answered (examine_next a info) h h' e = do_examine_next-Answered a info h e
  on_request-Answered die h h' e = on_die-Answered h e
  on_request-Answered unknown h h' e =
      subst (Answered unknown h) (some-eq e) (return_dos_packet-Answered unknown dosfalse 209 h)
