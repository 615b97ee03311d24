-- ===== src/Net/Send.antt =====
-- `send_tftp_packet`: the frame that goes to the serial device for a TFTP packet.
use cwnet.Base.{
  ℕ, suc, ◌+◌, ◌≡◌, ◌≤◌, ◌<◌, refl, ap, ◌∙◌, List, [], ◌∷◌, ◌++◌, Option, none, some, Bool, true,
  false, ◌==◌, length, arith, ◌⊎◌, inl, inr,
}
use cwnet.Slip.{max_buffer_size, error_buffer_overflow, Buffer}
use cwnet.Slip.Spec.{encode}
use cwnet.Slip.Encode.Whole.{contents}
use cwnet.Packet.Copy.{Holds-size}
use cwnet.Packet.Headers.{IsIpHeader}
use cwnet.Net.State.{
  System, Net, M, ◌>>=◌, ◌>>◌, pure, delete_buffer, send_slip_frame, update, cmd_write,
  netio_timeout,
}
use cwnet.Net.Laws.{
  IsFresh, Full, Full-lt, Made, Made-IsFresh, run, freed, freed-Full, freed-IsFresh,
  delete_buffer_lem,
}
use cwnet.Net.Build.{
  udp_datagram, length-udp_datagram, create_udp_packet-Made, create_ip_packet-Made,
}
use cwnet.Net.Frame.{slip_frame, create_slip_frame_lem}
use cwnet.Net.Tftp.{
  create_udp_packet, create_ip_packet, create_slip_frame, send_tftp_packet, unless_null, get_errno,
}

-- The requests for memory that a call makes are met.
abbrev pub HasMemory : System → ℕ → Type 0
HasMemory sys n =
    (sys.alloc_ok n ≡ true) × (sys.alloc_ok (suc n) ≡ true) × (sys.alloc_ok (suc (suc n)) ≡ true)

-- An IP packet that carries a TFTP packet: an IP header that verifies, and the UDP datagram.
pub record IsPacket (sys : System) (tftp packet : List ℕ) : Type 0 where
  pub header : List ℕ
  pub packet_eq : packet ≡ header ++ udp_datagram tftp
  pub header_ok : IsIpHeader sys.order (length (udp_datagram tftp)) header

-- The state after a frame was handed to the device: it is the last on the wire, the requests to
-- the device and the timer run, and the Buffer of the frame has been freed.
pub record Sent (s s' : Net) (frame : List ℕ) : Type 0 where
  pub wire_eq : s'.wire ≡ s.wire ++ frame ∷ []
  pub no_error : s'.errno ≡ 0
  pub writing : (s'.sreq).io_command ≡ cmd_write
  pub pending : (s'.sreq).pending ≡ true
  pub length_eq : (s'.sreq).io_length ≡ length frame
  pub timed : (s'.treq).running ≡ true
  pub dangling : s'.cell (s'.sreq).io_data ≡ none

-- The frame in `f` is sent, and its Buffer freed.
abbrev send_and_free : System → ℕ → M Bool
send_and_free sys f = do
  sent ← send_slip_frame sys f true
  delete_buffer f
  e ← get_errno
  pure (e == 0)

sent_state : Net → ℕ → Buffer → Net
sent_state s f b = record s {
  errno = 0;
  cell = update s.cell f none;
  sreq = record (s.sreq) {
    eof_mode = false;
    io_command = cmd_write;
    io_length = b.b_size;
    io_data = f;
    pending = true;
  };
  treq = record { tv_secs = netio_timeout; running = true };
  wire = s.wire ++ contents b ∷ [];
}

send_and_free-Sent :
    (sys : System) (s : Net) (f : ℕ) (frame : List ℕ)
    → Full s f frame
    → (s' : Net) × (send_and_free sys f s ≡ some (true, s')) × Sent s s' frame
unfolding send_slip_frame delete_buffer sent_state
send_and_free-Sent sys s f frame full = (
  sent_state s f full.block,
  ground (arith, full.found),
  record {
    wire_eq = ap (λ t. s.wire ++ t ∷ []) full.holds.bytes_eq;
    no_error = refl;
    writing = refl;
    pending = refl;
    length_eq = Holds-size full.block frame full.holds;
    timed = refl;
    dangling = ground arith;
  },
)

Made-Full :
    {s s' : Net} {bytes : List ℕ} (p : ℕ) (payload : List ℕ)
    → IsFresh s
    → Full s p payload
    → Made s s' bytes
    → Full s' p payload
Made-Full {s} p payload fresh f m =
    let near : p < s.next = Full-lt fresh f in
    record { block = f.block; found = m.others p (λ e. omega arith) ∙ f.found; holds = f.holds }

-- How a send of the packet `bytes` ends: its frame is on the wire, or it has no room in a packet
-- buffer, which is reported as an overflow.
abbrev pub Outcome : (Net → Option (Bool × Net)) → Net → List ℕ → Type 0
Outcome action s packet =
    ((length (encode packet) < max_buffer_size)
      × ((s' : Net) × (action s ≡ some (true, s')) × Sent s s' (slip_frame packet)))
    ⊎ ((max_buffer_size ≤ length (encode packet))
        × ((s' : Net) × (action s ≡ some (false, s'))
            × (s'.errno ≡ error_buffer_overflow)
            × (s'.wire ≡ s.wire)))

abbrev frame_and_send : System → ℕ → M Bool
frame_and_send sys i = do
  slip ← create_slip_frame sys i
  unless_null slip λ f. do delete_buffer i; send_and_free sys f

module _ (sys : System) (s : Net) (i : ℕ) (packet : List ℕ) (fresh : IsFresh s)
    (memory : sys.alloc_ok s.next ≡ true) (full : Full s i packet) where
  framed-Sent :
      (s₁ : Net)
      → create_slip_frame sys i s ≡ some (some s.next, s₁)
      → Made s s₁ (slip_frame packet)
      → (s' : Net) × (frame_and_send sys i s ≡ some (true, s')) × Sent s s' (slip_frame packet)
  unfolding freed
  framed-Sent s₁ made m =
      let near : i < s.next = Full-lt fresh full in
      let old = Made-Full i packet fresh full m in
      let (s', sent, r) =
        send_and_free-Sent sys (freed s₁ i) s.next (slip_frame packet)
          (freed-Full i (λ e. omega arith) m.made) in
      (
        s',
        run (create_slip_frame sys i) _ s made
            ∙ run (delete_buffer i) _ s₁ (delete_buffer_lem s₁ i old.block old.found)
            ∙ sent,
        record {
          wire_eq = r.wire_eq ∙ ap (λ w. w ++ slip_frame packet ∷ []) m.wire_eq;
          no_error = r.no_error;
          writing = r.writing;
          pending = r.pending;
          length_eq = r.length_eq;
          timed = r.timed;
          dangling = r.dangling;
        },
      )

  frame_and_send-Outcome : Outcome (frame_and_send sys i) s packet
  frame_and_send-Outcome = elim (create_slip_frame_lem sys s i packet fresh memory full) [
    | inl (short, (s₁, made, m)) ↦ inl (short, framed-Sent s₁ made m)
    | inr (long, (s₁, null, e, w)) ↦ inr (long, (s₁, run (create_slip_frame sys i) _ s null, e, w))
  ]

pub Outcome-after :
    {s t : Net} (bytes : List ℕ) (a b : M Bool)
    → a s ≡ b t
    → t.wire ≡ s.wire
    → Outcome b t bytes
    → Outcome a s bytes
Outcome-after {s} {t} bytes a b e w (inl (short, (s', ran, r))) = inl (
  short,
  (
    s',
    e ∙ ran,
    record {
      wire_eq = r.wire_eq ∙ ap (λ x. x ++ slip_frame bytes ∷ []) w;
      no_error = r.no_error;
      writing = r.writing;
      pending = r.pending;
      length_eq = r.length_eq;
      timed = r.timed;
      dangling = r.dangling;
    },
  ),
)
Outcome-after bytes a b e w (inr (long, (s', ran, overflow, same))) =
    inr (long, (s', e ∙ ran, overflow, same ∙ w))

abbrev wrap_and_send : System → ℕ → M Bool
wrap_and_send sys u = do
  ip ← create_ip_packet sys u
  unless_null ip λ i. do delete_buffer u; frame_and_send sys i

-- The last two layers, for a datagram in the Buffer `u`.
wrap_and_send-Outcome :
    (sys : System) (s : Net) (u : ℕ) (tftp : List ℕ)
    → IsFresh s
    → sys.alloc_ok s.next ≡ true
    → sys.alloc_ok (suc s.next) ≡ true
    → Full s u (udp_datagram tftp)
    → 20 + length (udp_datagram tftp) ≤ max_buffer_size
    → (packet : List ℕ) × IsPacket sys tftp packet × Outcome (wrap_and_send sys u) s packet
unfolding freed
wrap_and_send-Outcome sys s u tftp fresh first second full fits =
    let (s₁, hdr, made, m, ok) =
      create_ip_packet-Made sys s u (udp_datagram tftp) fresh first full fits in
    let near : u < s.next = Full-lt fresh full in
    let old = Made-Full u (udp_datagram tftp) fresh full m in
    let packet = hdr ++ udp_datagram tftp in
    let rest =
      frame_and_send-Outcome sys (freed s₁ u) s.next packet
        (freed-IsFresh s₁ u (Made-IsFresh s fresh m)) (ap sys.alloc_ok m.next_eq ∙ second)
        (freed-Full u (λ e. omega arith) m.made) in
    (
      packet,
      record { header = hdr; packet_eq = refl; header_ok = ok },
      Outcome-after packet (wrap_and_send sys u) (frame_and_send sys s.next)
          (run (create_ip_packet sys u) _ s made
            ∙ run (delete_buffer u) _ s₁ (delete_buffer_lem s₁ u old.block old.found))
          m.wire_eq rest,
    )

-- With memory for its three Buffers, sending a TFTP packet of at most 996 bytes puts the SLIP frame
-- of an IP packet with the UDP datagram of the TFTP packet on the wire and starts the timer, exactly
-- when the coding of the IP packet is shorter than a packet buffer; otherwise it sends nothing and
-- reports an overflow. The Buffer that the device was given is already freed when the call returns.
pub send_tftp_packet-Outcome :
    (sys : System) (s : Net) (p : ℕ) (tftp : List ℕ)
    → IsFresh s
    → HasMemory sys s.next
    → Full s p tftp
    → 28 + length tftp ≤ max_buffer_size
    → (packet : List ℕ) × IsPacket sys tftp packet × Outcome (send_tftp_packet sys p true) s packet
unfolding send_tftp_packet freed
send_tftp_packet-Outcome sys s p tftp fresh (first, second, third) full fits =
    let (s₁, made, m) = create_udp_packet-Made sys s p tftp fresh first full (omega arith) in
    let near : p < s.next = Full-lt fresh full in
    let old = Made-Full p tftp fresh full m in
    let size : length (udp_datagram tftp) ≡ 8 + length tftp = length-udp_datagram tftp in
    let (packet, ok, rest) =
      wrap_and_send-Outcome sys (freed s₁ p) s.next tftp
        (freed-IsFresh s₁ p (Made-IsFresh s fresh m)) (ap sys.alloc_ok m.next_eq ∙ second)
        (ap sys.alloc_ok (ap suc m.next_eq) ∙ third) (freed-Full p (λ e. omega arith) m.made)
        (omega arith) in
    (
      packet,
      ok,
      Outcome-after packet (send_tftp_packet sys p true) (wrap_and_send sys s.next)
          (run (create_udp_packet sys p) _ s made
            ∙ run (delete_buffer p) _ s₁ (delete_buffer_lem s₁ p old.block old.found))
          m.wire_eq rest,
    )
