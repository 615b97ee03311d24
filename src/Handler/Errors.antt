-- ===== src/Handler/Errors.antt =====
-- What the handler does when something fails: the branches after an error, which go on as if there
-- had been none, and the packets that meet in the one message of the handler.
use cwnet.Base.{
  ℕ, suc, ◌^◌, ◌≡◌, ◌≤◌, ◌<◌, refl, ap, sym, ◌∙◌, List, [], ◌∷◌, ◌++◌, Option, none, some, Bool,
  true, false, ◌==◌, pos, get_elem?, set, arith, some-eq, >>=-eq-some, Bool-cases, inl, inr,
  Option-cases, get_elem?-set_self, subst, ltb, length-set, ◌||◌,
}
use cwnet.Handler.State.{
  FileTransfer, ready, error, Handler, Internal, send_next_file, file_failed, Message, own,
  transfer, set_transfer, fail_transfer, holds_own, is_own, client, send_internal_packet,
  return_dos_packet, dostrue, without_timer, end_file,
}
use cwnet.Handler.Network.{NetIo}
use cwnet.Handler.Files.{on_end, on_file_done, get_next_file_from_queue}
use cwnet.Handler.Replies.{
  do_read_return, on_data_ack, on_ack, on_opcode, on_status, stop_io_timer, check_status,
  unless_done,
}
use cwnet.Handler.Transfer.{get_elem?-lt}
use cwnet.Handler.Queue.{FirstReady, Found, get_next_file_from_queue-Found}
use cwnet.Handler.Loop.{round, dispatch, on_request, on_internal}
use cwnet.Protocol.{error_tftp_wrong_block_num}

or_true : (b : Bool) → (b || true) ≡ true
or_true true = refl
or_true false = refl

holds_own-append : (ms : List Message) → holds_own (ms ++ own ∷ []) ≡ true
unfolding holds_own
holds_own-append [] = refl
holds_own-append (m ∷ ms) = rw (holds_own-append ms) (or_true (is_own m))

module _ {N : Type 0} where
  -- Where the internal packet is sent, it is behind all else on the port.
  sent_packet :
      (type : Internal) (arg : Option ℕ) (h h' : Handler N)
      → send_internal_packet type arg h ≡ some h'
      → (h'.port ≡ h.port ++ own ∷ []) × (h'.transfers ≡ h.transfers)
  unfolding send_internal_packet
  sent_packet type arg h h' e = elim (Bool-cases (holds_own h.port)) [
    | inl held ↦ cc (rw held at e)
    | inr free ↦
        let same = some-eq (rw free at e) in
        (sym (ap (λ (t : Handler N). t.port) same), sym (ap (λ (t : Handler N). t.transfers) same))
  ]

  on_end-port : (i : ℕ) (h h' : Handler N) → on_end i h ≡ some h' → h'.port ≡ h.port ++ own ∷ []
  unfolding on_end set_transfer return_dos_packet
  on_end-port i h h' e =
      let (f, found, sent) = >>=-eq-some (transfer h i) _ e in
      (sent_packet send_next_file none
        (set_transfer i (record f { ftx_state = ready })
          (return_dos_packet (end_file i) dostrue 0 (record h { ftx = some i })))
        h' sent).0

  on_end-held :
      (i : ℕ) (ms : List Message) (h : Handler N) → h.port ≡ ms ++ own ∷ [] → on_end i h ≡ none
  unfolding on_end send_internal_packet set_transfer return_dos_packet
  on_end-held i ms h e =
      let held : holds_own h.port ≡ true = ap holds_own e ∙ holds_own-append ms in
      elim (Option-cases (transfer h i)) [
        | inl missing ↦ rw missing
        | inr (f, found) ↦ rw (found, held)
      ]

-- With a ready file in the queue, there is a first one.
ready-Found :
    (fs : List FileTransfer) (i : ℕ) (f : FileTransfer)
    → get_elem? fs i ≡ some f
    → f.ftx_state ≡ ready
    → (j : ℕ) × (get_next_file_from_queue fs ≡ some j) × FirstReady fs j
ready-Found fs i f found now = elim (Option-cases (get_next_file_from_queue fs)) [
  | inl none_ready ↦
      absurd (subst (Found fs) none_ready (get_next_file_from_queue-Found fs) i f found now)
  | inr (j, next) ↦ (j, next, subst (Found fs) next (get_next_file_from_queue-Found fs))
]

first_le :
    (fs : List FileTransfer) (i j : ℕ) (f : FileTransfer)
    → get_elem? fs i ≡ some f
    → f.ftx_state ≡ ready
    → FirstReady fs j
    → j ≤ i
first_le fs i j f found now first = elim (Bool-cases (ltb i j)) [
  | inl before ↦ absurd (first.earlier i f (ground arith) found now)
  | inr behind ↦ ground arith
]

module _ (net : NetIo) (alloc_ok : ℕ → Bool) where
  open net use {Net}

  -- Two clients close their files, and both packets are on the port before the handler takes the
  -- first: when the second one is handled, the internal packet that the first one sent is still on
  -- the port, and the handler puts the same message there a second time, a fault.
  pub end_file_twice :
      (i j : ℕ) (ms : List Message) (h h' : Handler Net)
      → h.port ≡ client (end_file i) ∷ client (end_file j) ∷ ms
      → round net alloc_ok h.port h ≡ some h'
      → round net alloc_ok h'.port h' ≡ none
  unfolding round dispatch on_request
  end_file_twice i j ms h h' e first =
      let ended : on_end i (record h { port = client (end_file j) ∷ ms }) ≡ some h' =
        sym (ap (λ q. round net alloc_ok q h) e) ∙ first in
      let port = on_end-port i (record h { port = client (end_file j) ∷ ms }) h' ended in
      ap (λ q. round net alloc_ok q h') port
      ∙ on_end-held j ms (record h' { port = ms ++ own ∷ [] }) refl

  -- A transfer that fails while nothing is on the port: in the round that follows its buffers are
  -- freed, its state and error code stay, the handler is free, and the next file is asked for.
  pub fail_transfer_cleared :
      (i code : ℕ) (f : FileTransfer) (h : Handler Net)
      → h.port ≡ []
      → get_elem? h.transfers i ≡ some f
      → (h₁ h₂ : Handler Net) × (fail_transfer i code h ≡ some h₁)
        × (round net alloc_ok h₁.port h₁ ≡ some h₂)
        × (get_elem? h₂.transfers i
            ≡ some (record f { ftx_state = error; ftx_error = code; ftx_buffers = [] }))
        × (h₂.port ≡ own ∷ [])
        × (h₂.outpkt ≡ record { dp_type = send_next_file; dp_arg1 = none })
        × (h₂.busy ≡ false)
  unfolding fail_transfer round dispatch on_internal on_file_done holds_own
  fail_transfer_cleared i code f h empty found =
      let f₁ : FileTransfer = record f { ftx_state = error; ftx_error = code } in
      let f₂ : FileTransfer = record f₁ { ftx_buffers = [] } in
      let near = get_elem?-lt h.transfers i f found in
      let again = get_elem?-set_self h.transfers i f₁ near in
      let free : holds_own h.port ≡ false = ap holds_own empty in
      let h₁ : Handler Net = record h {
        transfers = set h.transfers i f₁;
        busy = false;
        outpkt = record { dp_type = file_failed; dp_arg1 = some i };
        port = h.port ++ own ∷ [];
      } in
      (
        h₁,
        record h₁ {
          port = own ∷ [];
          transfers = set (set h.transfers i f₁) i f₂;
          ftx = some i;
          outpkt = record { dp_type = send_next_file; dp_arg1 = none };
        },
        rw (found, free),
        ap (λ q. round net alloc_ok (q ++ own ∷ []) h₁) empty ∙ rw again,
        get_elem?-set_self (set h.transfers i f₁) i f₂ (rw (length-set h.transfers i f₁) near),
        refl,
        refl,
        refl,
      )

module _ (net : NetIo) where
  open net use {Net}

  -- A read that the device ends with an error, where the buffer still decodes to a packet with the
  -- opcode of an acknowledgement, and with the internal packet not on the port: the transfer fails
  -- as it should, but the function goes on, finds the transfer in S_ERROR, and shuts the handler
  -- down.
  pub do_read_return_after_error :
      (i e : ℕ) (f : FileTransfer) (n₁ n₂ n₃ : Net) (h : Handler Net)
      → net.stop_timer h.net ≡ some n₁
      → net.get_status n₁ ≡ some (pos (suc e), n₂)
      → net.extract n₂ ≡ some (true, n₃)
      → net.opcode n₃ ≡ some 4
      → get_elem? h.transfers i ≡ some f
      → holds_own (without_timer h.port) ≡ false
      → (h' : Handler Net) × (do_read_return net i h ≡ some h')
        × (h'.running ≡ false)
        × (get_elem? h'.transfers i ≡ some (record f { ftx_state = error; ftx_error = suc e }))
  unfolding do_read_return stop_io_timer check_status on_status fail_transfer unless_done on_opcode
      on_ack
  do_read_return_after_error i e f n₁ n₂ n₃ h stop status extract op found free =
      let f' : FileTransfer = record f { ftx_state = error; ftx_error = suc e } in
      let again = get_elem?-set_self h.transfers i f' (get_elem?-lt h.transfers i f found) in
      (
        record h {
          net = n₃;
          busy = false;
          running = false;
          transfers = set h.transfers i f';
          outpkt = record { dp_type = file_failed; dp_arg1 = some i };
          port = without_timer h.port ++ own ∷ [];
        },
        rw (stop, status, found, free, extract, op, again),
        refl,
        again,
      )

  -- The block number of a packet is 16 bits wide, the one of the transfer 32: from the 65536th
  -- block on every acknowledgement fails the transfer.
  pub on_data_ack_wrapped :
      (i received : ℕ) (f : FileTransfer) (h : Handler Net)
      → received < 2 ^ 16
      → 2 ^ 16 ≤ f.ftx_blknum
      → on_data_ack net i f received h ≡ fail_transfer i error_tftp_wrong_block_num h
  unfolding on_data_ack
  on_data_ack_wrapped i received f h short long =
      let differ : (received == f.ftx_blknum) ≡ false = ground arith in rw differ

module _ {N : Type 0} where
  -- With the internal packet not on the port, ACTION_END makes a file ready in whatever state it
  -- was, S_ERROR after a failed write included: it, or one before it in the queue, is the next file
  -- to be sent.
  pub on_end-FirstReady :
      (i : ℕ) (f : FileTransfer) (h : Handler N)
      → get_elem? h.transfers i ≡ some f
      → holds_own h.port ≡ false
      → (h' : Handler N) × (j : ℕ) × (on_end i h ≡ some h')
        × (get_elem? h'.transfers i ≡ some (record f { ftx_state = ready }))
        × (get_next_file_from_queue h'.transfers ≡ some j)
        × FirstReady h'.transfers j
        × (j ≤ i)
  unfolding on_end return_dos_packet send_internal_packet
  on_end-FirstReady i f h found free =
      let f' : FileTransfer = record f { ftx_state = ready } in
      let fs = set h.transfers i f' in
      let again = get_elem?-set_self h.transfers i f' (get_elem?-lt h.transfers i f found) in
      let (j, next, first) = ready-Found fs i f' again refl in
      (
        record (return_dos_packet (end_file i) dostrue 0 h) {
          ftx = some i;
          transfers = fs;
          outpkt = record { dp_type = send_next_file; dp_arg1 = none };
          port = h.port ++ own ∷ [];
        },
        j,
        rw (found, free),
        again,
        next,
        first,
        first_le fs i j f' again refl first,
      )
