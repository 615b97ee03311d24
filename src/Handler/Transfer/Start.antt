-- ===== src/Handler/Transfer/Start.antt =====
-- The start of a transfer: from the internal packet that asks for the next file to the acknowledged
-- write request.
use cwnet.Base.{
  ℕ, ◌≡◌, refl, ap, ◌∙◌, List, [], ◌∷◌, none, some, true, false, set, get_elem?, get_elem?-set_self,
}
use cwnet.Handler.State.{
  FileBuffer, ready, wrq_sent, Handler, send_next_file, send_next_buffer, IoPacket, write_return,
  read_return, own, transfer, set_transfer, without_timer,
}
use cwnet.Handler.Network.{NetIo}
use cwnet.Handler.Files.{on_send_next_file, start_file, after_send, get_next_file_from_queue}
use cwnet.Handler.Replies.{do_read_return}
use cwnet.Handler.Loop.{round, dispatch, on_serial, on_internal}
use cwnet.Handler.Reliable.{Reliable, Runs, here, then_, next_messages}
use cwnet.Handler.Transfer.{file_at, Waiting, Told, all_ok, written, serial_round, get_elem?-lt}

module _ (net : NetIo) (line : Reliable net) (i : ℕ) (name : List ℕ) (bs : List FileBuffer) where
  open net use {Net}
  open line use {blocks, Writing, Reading, Ready, Requestable, send_req_ok, answer_ok}

  -- The write request for the first ready file is sent.
  requested :
      (h : Handler Net)
      → h.port ≡ own ∷ []
      → h.outpkt ≡ record { dp_type = send_next_file; dp_arg1 = none }
      → h.busy ≡ false
      → get_next_file_from_queue h.transfers ≡ some i
      → get_elem? h.transfers i ≡ some (file_at name ready 0 0 bs)
      → Ready h.net
      → Requestable name
      → (h' : Handler Net) × (round net all_ok (next_messages h.port) h ≡ some h')
        × Waiting net line i write_return (file_at name wrq_sent 0 0 bs) h'
        × (blocks h'.net ≡ blocks h.net)
        × Writing h'.net 0
  unfolding round dispatch on_internal on_send_next_file start_file after_send transfer set_transfer
  requested h port asks idle first found rest fits =
      let (s', sent, same, acks) = send_req_ok name h.net rest fits in
      let f' = file_at name wrq_sent 0 0 bs in
      (
        record h {
          port = [];
          ftx = some i;
          busy = true;
          iopkt1 = record { dp_type = write_return; dp_arg1 = some i };
          transfers = set h.transfers i f';
          net = s';
        },
        ap (λ ms. round net all_ok (next_messages ms) h) port
            ∙ ap (λ o. on_internal net all_ok o.dp_type o.dp_arg1 (record h { port = [] })) asks
            ∙ rw (idle, first, found, sent, found),
        record {
          found = get_elem?-set_self h.transfers i f' (get_elem?-lt h.transfers i _ found);
          empty = refl;
          io = refl;
        },
        same,
        acks,
      )

  -- The server's acknowledgement of the request.
  admitted :
      (h : Handler Net)
      → Waiting net line i read_return (file_at name wrq_sent 0 0 bs) h
      → Reading h.net 0
      → (h' : Handler Net) × (round net all_ok (next_messages h.port) h ≡ some h')
        × Told net line i send_next_buffer (file_at name wrq_sent 0 0 bs) h'
        × (blocks h'.net ≡ blocks h.net)
  unfolding do_read_return on_serial without_timer
  admitted h w acks =
      let (s₁, s₂, s₃, stop, status, extract, op, number, same, again) = answer_ok h.net 0 acks in
      (
        record h {
          port = own ∷ [];
          outpkt = record { dp_type = send_next_buffer; dp_arg1 = some i };
          net = s₃;
        },
        serial_round net line i read_return (file_at name wrq_sent 0 0 bs) h w
            ∙ rw (stop, status, extract, op, w.found),
        record {
          found = w.found;
          one = refl;
          asks = refl;
          io = ap (λ (o : IoPacket). o.dp_arg1) w.io;
          at_rest = again;
        },
        same,
      )

  -- From the queue to the first buffer.
  pub transfer_started :
      (h : Handler Net)
      → h.port ≡ own ∷ []
      → h.outpkt ≡ record { dp_type = send_next_file; dp_arg1 = none }
      → h.busy ≡ false
      → get_next_file_from_queue h.transfers ≡ some i
      → get_elem? h.transfers i ≡ some (file_at name ready 0 0 bs)
      → Ready h.net
      → Requestable name
      → (h' : Handler Net) × Runs net h h'
        × Told net line i send_next_buffer (file_at name wrq_sent 0 0 bs) h'
        × (blocks h'.net ≡ blocks h.net)
  transfer_started h port asks idle first found rest fits =
      let (h₁, r₁, w₁, b₁, acks₁) = requested h port asks idle first found rest fits in
      let (h₂, r₂, w₂, acks₂, b₂) =
        written net line i (file_at name wrq_sent 0 0 bs) 0 h₁ w₁ acks₁ in
      let (h₃, r₃, t₃, b₃) = admitted h₂ w₂ acks₂ in
      (h₃, then_ (then_ (then_ here r₁) r₂) r₃, t₃, b₃ ∙ b₂ ∙ b₁)
