-- ===== src/Handler/Transfer.antt =====
-- A whole transfer over a reliable line: the rounds of the loop from the acknowledged write request
-- to S_FINISHED, and the data packets that the server gets.
pub mod Whole
pub mod Start
pub mod Session
use cwnet.Base.{
  ℕ, zero, suc, ◌+◌, ◌-◌, ◌*◌, ◌/◌, ◌%◌, ◌^◌, ◌≡◌, ◌≢◌, ◌≤◌, ◌<◌, refl, ap, ap₂, sym, ◌∙◌, List, [],
  ◌∷◌, ◌++◌, Option, none, some, Bool, true, false, ◌>>=◌, ℤ, pos, negsuc, length, take, drop, set,
  get_elem?, min, arith, ◌⊎◌, inl, inr, sub_nat, exceeds, get_elem?-set_self, length-set,
  append-nil, append_assoc, if◌then◌else◌, ◌==◌, Bool-cases, ltb,
}
use cwnet.Handler.State.{
  FileBuffer, FileTransfer, TransferState, wrq_sent, data_sent, finished, Handler, Internal,
  InternalPacket, send_next_buffer, continue_buffer, file_finished, buffer_finished, IoPacket,
  IoType, write_return, read_return, Message, own, serial, transfer, set_transfer,
  send_internal_packet, without_timer,
}
use cwnet.Handler.Network.{NetIo}
use cwnet.Handler.Files.{
  on_send_next_buffer, on_continue_buffer, on_buffer_finished, send_block, after_send,
}
use cwnet.Handler.Replies.{do_write_return, do_read_return, block_acknowledged}
use cwnet.Handler.Loop.{round, dispatch, on_serial, on_internal}
use cwnet.Handler.Reliable.{Block, Reliable, Runs, here, then_, Runs-trans, next_messages}

abbrev pub all_ok : ℕ → Bool
all_ok n = true

abbrev pub file_at : List ℕ → TransferState → ℕ → ℕ → List FileBuffer → FileTransfer
file_at name state k code buffers = record {
  ftx_fname = name;
  ftx_state = state;
  ftx_blknum = k;
  ftx_error = code;
  ftx_buffers = buffers;
}

abbrev pub buffer_at : List ℕ → ℕ → ℕ → FileBuffer
buffer_at bytes c n = record { fb_bytes = bytes; fb_curpos = c; fb_nbytes_to_send = pos n }

pub get_elem?-lt {ℓ} :
    {A : Type ℓ} (xs : List A) (i : ℕ) (x : A) → get_elem? xs i ≡ some x → i < length xs
get_elem?-lt [] i x h = cc
get_elem?-lt (y ∷ xs) zero x h = omega arith
get_elem?-lt (y ∷ xs) (suc i) x h = omega (arith, get_elem?-lt xs i x h)

==_refl : (k : ℕ) → (k == k) ≡ true
==_refl k = ground arith

module _ (net : NetIo) (line : Reliable net) (i : ℕ) where
  open net use {Net}
  open line use {
    blocks, Writing, Reading, Ready, Sendable, limit, limit_le, send_data_ok, written_ok, answer_ok,
  }

  -- The loop waits for the device: the transfer is `f`, and the serial request comes back next.
  pub record Waiting (kind : IoType) (f : FileTransfer) (h : Handler Net) : Type 0 where
    found : get_elem? h.transfers i ≡ some f
    empty : h.port ≡ []
    io : h.iopkt1 ≡ record { dp_type = kind; dp_arg1 = some i }

  -- The internal packet of the given type, about the transfer `f`, is next.
  pub record Told (type : Internal) (f : FileTransfer) (h : Handler Net) : Type 0 where
    pub found : get_elem? h.transfers i ≡ some f
    pub one : h.port ≡ own ∷ []
    pub asks : h.outpkt ≡ record { dp_type = type; dp_arg1 = some i }
    pub io : (h.iopkt1).dp_arg1 ≡ some i
    pub at_rest : Ready h.net

  -- What the server has got after a block.
  abbrev OneMore : Net → ℕ → List ℕ → ℕ → ℕ → Net → Type 0
  OneMore s k bytes c n s' =
      (blocks s'
        ≡ blocks s ++ (record { number = k + 1; payload = take (min n 512) (drop c bytes) }) ∷ [])
      × Writing s' (k + 1)

  -- A block of the buffer is sent.
  send_block-Waiting :
      (name : List ℕ) (st : TransferState) (k code : ℕ) (bs : List FileBuffer) (bytes : List ℕ)
      (c n : ℕ) (h : Handler Net)
      → i < length h.transfers
      → h.port ≡ []
      → (h.iopkt1).dp_arg1 ≡ some i
      → Ready h.net
      → c + n ≤ length bytes
      → Sendable (take (min n 512) (drop c bytes))
      → k + 1 < limit
      → (h' : Handler Net) × (send_block net i (file_at name st k code bs) (buffer_at bytes c n) h
          ≡ some h')
        × Waiting write_return (file_at name data_sent (k + 1) code bs) h'
        × OneMore h.net k bytes c n h'.net
  unfolding send_block after_send transfer set_transfer
  send_block-Waiting name st k code bs bytes c n h near empty io rest fits sendable small =
      let below : k + 1 < 2 ^ 16 = omega (arith, limit_le) in
      let wide : (k + 1) % 2 ^ 32 ≡ k + 1 = omega arith in
      let narrow : (k + 1) % 2 ^ 16 ≡ k + 1 = omega arith in
      let (s', sent, got, acks) = send_data_ok (k + 1) bytes c n h.net rest small fits sendable in
      let f₁ = file_at name st (k + 1) code bs in
      let f₂ = file_at name data_sent (k + 1) code bs in
      (
        record h {
          transfers = set (set h.transfers i f₁) i f₂;
          iopkt1 = record { dp_type = write_return; dp_arg1 = (h.iopkt1).dp_arg1 };
          net = s';
        },
        rw (wide, sent, get_elem?-set_self h.transfers i f₁ near),
        record {
          found =
              get_elem?-set_self (set h.transfers i f₁) i f₂
                (rw (length-set h.transfers i f₁) near);
          empty = empty;
          io = ap (λ a. record { dp_type = write_return; dp_arg1 = a }) io;
        },
        (rw narrow at got, acks),
      )

  bind_some {ℓ κ} :
      {A : Type ℓ} {B : Type κ} {m : Option A} {a : A} (f : A → Option B)
      → m ≡ some a
      → (m >>= f) ≡ f a
  bind_some f e = ap (λ o. o >>= f) e

  serial_round :
      (kind : IoType) (f : FileTransfer) (h : Handler Net)
      → Waiting kind f h
      → round net all_ok (next_messages h.port) h
        ≡ on_serial net all_ok kind (some i) (record h { port = [] })
  unfolding round dispatch
  serial_round kind f h w =
      ap (λ ms. round net all_ok (next_messages ms) h) w.empty
      ∙ ap (λ io. on_serial net all_ok io.dp_type io.dp_arg1 (record h { port = [] })) w.io

  own_round :
      (type : Internal) (f : FileTransfer) (h : Handler Net)
      → Told type f h
      → round net all_ok (next_messages h.port) h
        ≡ on_internal net all_ok type (some i) (record h { port = [] })
  unfolding round dispatch
  own_round type f h t =
      ap (λ ms. round net all_ok (next_messages ms) h) t.one
      ∙ ap (λ o. on_internal net all_ok o.dp_type o.dp_arg1 (record h { port = [] })) t.asks

  -- The write has ended: the read of the answer is started.
  written :
      (f : FileTransfer) (k : ℕ) (h : Handler Net)
      → Waiting write_return f h
      → Writing h.net k
      → (h' : Handler Net) × (round net all_ok (next_messages h.port) h ≡ some h')
        × Waiting read_return f h'
        × Reading h'.net k
        × (blocks h'.net ≡ blocks h.net)
  unfolding do_write_return on_serial without_timer
  written f k h w acks =
      let (s₁, s₂, s₃, stop, status, recv, acks', same) = written_ok h.net k acks in
      (
        record h {
          port = [];
          iopkt1 = record { dp_type = read_return; dp_arg1 = (h.iopkt1).dp_arg1 };
          net = s₃;
        },
        serial_round write_return f h w ∙ rw (stop, status, recv),
        record {
          found = w.found;
          empty = refl;
          io = ap (λ (o : IoPacket). record { dp_type = read_return; dp_arg1 = o.dp_arg1 }) w.io;
        },
        acks',
        same,
      )

  -- The answer acknowledges the block: with `left` bytes of the buffer still to be sent, the
  -- internal packet asks for `type`.
  answered :
      (name : List ℕ) (k code : ℕ) (bs : List FileBuffer) (bytes : List ℕ) (c n : ℕ) (left : ℤ)
      (type : Internal) (h : Handler Net)
      → sub_nat (pos n) 512 ≡ left
      → (if exceeds left 0 then continue_buffer else buffer_finished) ≡ type
      → Waiting read_return (file_at name data_sent k code (buffer_at bytes c n ∷ bs)) h
      → Reading h.net k
      → (h' : Handler Net) × (round net all_ok (next_messages h.port) h ≡ some h')
        × Told type
            (file_at name data_sent k code
              (record { fb_bytes = bytes; fb_curpos = c; fb_nbytes_to_send = left } ∷ bs))
            h'
        × (blocks h'.net ≡ blocks h.net)
  unfolding do_read_return on_serial without_timer block_acknowledged set_transfer
  answered name k code bs bytes c n left type h rest next w acks =
      let (s₁, s₂, s₃, stop, status, extract, op, number, same, again) = answer_ok h.net k acks in
      let near = get_elem?-lt h.transfers i _ w.found in
      let f' =
        file_at name data_sent k code
          (record { fb_bytes = bytes; fb_curpos = c; fb_nbytes_to_send = left } ∷ bs) in
      (
        record h {
          port = own ∷ [];
          outpkt = record { dp_type = type; dp_arg1 = some i };
          transfers = set h.transfers i f';
          net = s₃;
        },
        serial_round read_return (file_at name data_sent k code (buffer_at bytes c n ∷ bs)) h w
            ∙ rw (stop, status, extract, op, w.found, number, rest, next, ==_refl k),
        record {
          found = get_elem?-set_self h.transfers i f' near;
          one = refl;
          asks = refl;
          io = ap (λ (o : IoPacket). o.dp_arg1) w.io;
          at_rest = again;
        },
        same,
      )

  -- The next block of the same buffer is sent.
  continued :
      (name : List ℕ) (k code : ℕ) (bs : List FileBuffer) (bytes : List ℕ) (c n : ℕ)
      (h : Handler Net)
      → Told continue_buffer (file_at name data_sent k code (buffer_at bytes c n ∷ bs)) h
      → c + 512 + n ≤ length bytes
      → Sendable (take (min n 512) (drop (c + 512) bytes))
      → k + 1 < limit
      → (h' : Handler Net) × (round net all_ok (next_messages h.port) h ≡ some h')
        × Waiting write_return
            (file_at name data_sent (k + 1) code (buffer_at bytes (c + 512) n ∷ bs))
            h'
        × OneMore h.net k bytes (c + 512) n h'.net
  unfolding on_continue_buffer on_internal transfer
  continued name k code bs bytes c n h t fits sendable small =
      let (h', sent, w, got) =
        send_block-Waiting name data_sent k code (buffer_at bytes (c + 512) n ∷ bs) bytes (c + 512)
          n (record h { port = []; ftx = some i }) (get_elem?-lt h.transfers i _ t.found) refl t.io
          t.at_rest fits sendable small in
      (
        h',
        own_round continue_buffer (file_at name data_sent k code (buffer_at bytes c n ∷ bs)) h t
            ∙ rw (t.found) sent,
        w,
        got,
      )

  -- The buffer at the head has been sent: it is freed, and the next one is asked for.
  buffer_done :
      (name : List ℕ) (st : TransferState) (k code : ℕ) (b : FileBuffer) (bs : List FileBuffer)
      (h : Handler Net)
      → Told buffer_finished (file_at name st k code (b ∷ bs)) h
      → (h' : Handler Net) × (round net all_ok (next_messages h.port) h ≡ some h')
        × Told send_next_buffer (file_at name st k code bs) h'
        × (h'.net ≡ h.net)
  unfolding on_buffer_finished on_internal transfer set_transfer
  buffer_done name st k code b bs h t = (
    record h {
      port = own ∷ [];
      outpkt = record { dp_type = send_next_buffer; dp_arg1 = some i };
      transfers = set h.transfers i (file_at name st k code bs);
      ftx = some i;
    },
    own_round buffer_finished (file_at name st k code (b ∷ bs)) h t ∙ rw (t.found),
    record {
      found = get_elem?-set_self h.transfers i _ (get_elem?-lt h.transfers i _ t.found);
      one = refl;
      asks = refl;
      io = t.io;
      at_rest = t.at_rest;
    },
    refl,
  )

  -- The first block of the next buffer is sent.
  next_sent :
      (name : List ℕ) (st : TransferState) (k code : ℕ) (bs : List FileBuffer) (bytes : List ℕ)
      (n : ℕ) (h : Handler Net)
      → Told send_next_buffer (file_at name st k code (buffer_at bytes 0 n ∷ bs)) h
      → n ≤ length bytes
      → Sendable (take (min n 512) (drop 0 bytes))
      → k + 1 < limit
      → (h' : Handler Net) × (round net all_ok (next_messages h.port) h ≡ some h')
        × Waiting write_return (file_at name data_sent (k + 1) code (buffer_at bytes 0 n ∷ bs)) h'
        × OneMore h.net k bytes 0 n h'.net
  unfolding on_send_next_buffer on_internal transfer
  next_sent name st k code bs bytes n h t fits sendable small =
      let (h', sent, w, got) =
        send_block-Waiting name st k code (buffer_at bytes 0 n ∷ bs) bytes 0 n
          (record h { port = []; ftx = some i }) (get_elem?-lt h.transfers i _ t.found) refl t.io
          t.at_rest (omega arith) sendable small in
      (
        h',
        own_round send_next_buffer (file_at name st k code (buffer_at bytes 0 n ∷ bs)) h t
            ∙ rw (t.found) sent,
        w,
        got,
      )

  -- With no buffer left the transfer is finished.
  all_sent :
      (name : List ℕ) (st : TransferState) (k code : ℕ) (h : Handler Net)
      → Told send_next_buffer (file_at name st k code []) h
      → (h' : Handler Net) × (round net all_ok (next_messages h.port) h ≡ some h')
        × Told file_finished (file_at name finished k code []) h'
        × (h'.net ≡ h.net)
        × (h'.busy ≡ false)
  unfolding on_send_next_buffer on_internal transfer set_transfer
  all_sent name st k code h t = (
    record h {
      port = own ∷ [];
      outpkt = record { dp_type = file_finished; dp_arg1 = some i };
      transfers = set h.transfers i (file_at name finished k code []);
      ftx = some i;
      busy = false;
    },
    own_round send_next_buffer (file_at name st k code []) h t ∙ rw (t.found),
    record {
      found = get_elem?-set_self h.transfers i _ (get_elem?-lt h.transfers i _ t.found);
      one = refl;
      asks = refl;
      io = t.io;
      at_rest = t.at_rest;
    },
    refl,
    refl,
  )
