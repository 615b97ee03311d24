-- ===== src/Handler/Timeouts.antt =====
-- A timeout after a client has closed another file: three rounds of the main loop, on netio.c.
use cwnet.Base.{
  ℕ, ◌≡◌, ◌≢◌, refl, ap, sym, ◌∙◌, [], ◌∷◌, none, some, Bool, true, false, set, get_elem?,
  get_elem?-set_self, get_elem?-set_ne, ◌>>=◌,
}
use cwnet.Protocol.{error_io_timeout}
use cwnet.Net.State.{Net, System, netio_abort}
use cwnet.Handler.State.{
  Handler, FileTransfer, ready, error, client, own, timer, end_file, send_next_file, file_failed,
  transfer, set_transfer, fail_transfer, set_error, send_internal_packet, return_dos_packet,
  dostrue, holds_own, without_serial,
}
use cwnet.Handler.Files.{on_end, on_send_next_file}
use cwnet.Handler.Replies.{on_timer_expired, abort_io}
use cwnet.Handler.Loop.{round, dispatch, on_request, on_internal}
use cwnet.Handler.Transfer.{get_elem?-lt}
use cwnet.Handler.Wire.{over_netio}

module _ (sys : System) (device : Net → Net) (pkt : ℕ) (alloc_ok : ℕ → Bool) where
  -- The file `j` has been closed: it is ready, and `ftx` points to it.
  abbrev closed : ℕ → FileTransfer → Handler Net → Handler Net
  closed j g h =
      set_transfer j (record g { ftx_state = ready })
        (return_dos_packet (end_file j) dostrue 0 (record h { port = []; ftx = some j }))

  end_round :
      (j : ℕ) (g : FileTransfer) (h : Handler Net)
      → get_elem? h.transfers j ≡ some g
      → round (over_netio sys device pkt) alloc_ok (client (end_file j) ∷ []) h
        ≡ some (record (closed j g h) {
          outpkt = record { dp_type = send_next_file; dp_arg1 = none };
          port = own ∷ [];
        })
  unfolding round dispatch on_request on_end transfer send_internal_packet holds_own set_transfer
      return_dos_packet
  end_round j g h found = rw found

  -- A handler that is busy does nothing about the next file.
  busy_same :
      (h : Handler Net) → h.busy ≡ true → on_send_next_file (over_netio sys device pkt) h ≡ some h
  unfolding on_send_next_file
  busy_same h busy = rw busy

  busy_round :
      (h : Handler Net)
      → h.busy ≡ true
      → h.outpkt ≡ record { dp_type = send_next_file; dp_arg1 = none }
      → round (over_netio sys device pkt) alloc_ok (own ∷ []) h ≡ some (record h { port = [] })
  unfolding round dispatch on_internal on_send_next_file
  busy_round h busy asks =
      ap
        (λ o.
          on_internal (over_netio sys device pkt) alloc_ok o.dp_type o.dp_arg1
            (record h { port = [] }))
        asks
      ∙ busy_same (record h { port = [] }) busy

  timer_round :
      (i j : ℕ) (f : FileTransfer) (h : Handler Net)
      → (h.iopkt1).dp_arg1 ≡ some i
      → h.ftx ≡ some j
      → get_elem? h.transfers j ≡ some f
      → h.port ≡ []
      → i ≢ j
      → (h' : Handler Net) × (round (over_netio sys device pkt) alloc_ok (timer ∷ []) h ≡ some h')
        × (get_elem? h'.transfers j
            ≡ some (record f { ftx_state = error; ftx_error = error_io_timeout }))
        × (get_elem? h'.transfers i ≡ get_elem? h.transfers i)
        × (h'.port ≡ own ∷ [])
        × (h'.outpkt ≡ record { dp_type = file_failed; dp_arg1 = some j })
        × (h'.busy ≡ false)
  unfolding round dispatch on_timer_expired abort_io fail_transfer set_error transfer set_transfer
      send_internal_packet holds_own without_serial netio_abort
  timer_round i j f h flying about found quiet differ =
      let f' : FileTransfer = record f { ftx_state = error; ftx_error = error_io_timeout } in
      let net' : Net = record (h.net) { sreq = record ((h.net).sreq) { pending = false } } in
      (
        record h {
          net = net';
          busy = false;
          transfers = set h.transfers j f';
          outpkt = record { dp_type = file_failed; dp_arg1 = some j };
          port = own ∷ [];
        },
        rw (about, found),
        get_elem?-set_self h.transfers j f' (get_elem?-lt h.transfers j f found),
        get_elem?-set_ne h.transfers j i f' (λ e. differ (sym e)),
        refl,
        refl,
        refl,
      )

  -- While the transfer `i` is in flight, a client closes the file `j`, the handler takes the internal
  -- packet that asks for the next file, and then the timer of the request for `i` expires: after
  -- these three rounds it is the file `j`, of which nothing was sent, that has S_ERROR and the
  -- timeout, and whose failure the internal packet reports. The transfer `i`, whose request was
  -- aborted, is as it was, and the handler takes itself to be free.
  pub timeout_after_end :
      (i j : ℕ) (g : FileTransfer) (h : Handler Net)
      → h.port ≡ client (end_file j) ∷ []
      → h.busy ≡ true
      → (h.iopkt1).dp_arg1 ≡ some i
      → get_elem? h.transfers j ≡ some g
      → i ≢ j
      → (h' : Handler Net) × ((round (over_netio sys device pkt) alloc_ok h.port h >>= λ h₁.
            round (over_netio sys device pkt) alloc_ok h₁.port h₁ >>= λ h₂.
            round (over_netio sys device pkt) alloc_ok (timer ∷ []) h₂)
          ≡ some h')
        × (get_elem? h'.transfers j
            ≡ some (record g { ftx_state = error; ftx_error = error_io_timeout }))
        × (get_elem? h'.transfers i ≡ get_elem? h.transfers i)
        × (h'.port ≡ own ∷ [])
        × (h'.outpkt ≡ record { dp_type = file_failed; dp_arg1 = some j })
        × (h'.busy ≡ false)
  unfolding set_transfer return_dos_packet
  timeout_after_end i j g h port busy flying found differ =
      let near = get_elem?-lt h.transfers j g found in
      let g' : FileTransfer = record g { ftx_state = ready } in
      let h₁ : Handler Net = record (closed j g h) {
        outpkt = record { dp_type = send_next_file; dp_arg1 = none };
        port = own ∷ [];
      } in
      let h₂ : Handler Net = record h₁ { port = [] } in
      let (h', ran, blamed, spared, packet, asks, free) =
        timer_round i j g' h₂ flying refl (get_elem?-set_self h.transfers j g' near) refl differ in
      (
        h',
        ap
              (λ ms. round (over_netio sys device pkt) alloc_ok ms h >>= λ h₁.
                round (over_netio sys device pkt) alloc_ok h₁.port h₁ >>= λ h₂.
                round (over_netio sys device pkt) alloc_ok (timer ∷ []) h₂)
              port
            ∙ ap
                (λ o. o >>= λ h₁. round (over_netio sys device pkt) alloc_ok h₁.port h₁ >>= λ h₂.
                  round (over_netio sys device pkt) alloc_ok (timer ∷ []) h₂)
                (end_round j g h found)
            ∙ ap (λ o. o >>= λ h₂. round (over_netio sys device pkt) alloc_ok (timer ∷ []) h₂)
                (busy_round h₁ busy refl)
            ∙ ran,
        blamed,
        spared ∙ get_elem?-set_ne h.transfers j i g' (λ e. differ (sym e)),
        packet,
        asks,
        free,
      )
