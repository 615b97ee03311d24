-- ===== src/Net/Receive/Unpack.antt =====
-- The whole of `extract_tftp_packet`, layer by layer.
use cwnet.Base.{
  ℕ, suc, ◌+◌, ◌≡◌, ◌≢◌, ◌<◌, refl, ap, sym, ◌∙◌, List, ◌++◌, none, some, Bool, true, false, ◌==◌,
  length, arith, memcpy, take, Bool-cases, ltb, inl, inr,
}
use cwnet.Slip.{Buffer, max_buffer_size}
use cwnet.Slip.Decode.Whole.{Frame, slip_decode_buffer_plain, slip_decode_buffer_front}
use cwnet.Packet.Copy.{memcpy_lem}
use cwnet.Net.State.{
  System, Net, M, ◌>>=◌, ◌>>◌, pure, lift, deref, assign, set_errno, update, delete_buffer,
}
use cwnet.Net.Laws.{
  IsFresh, Full, Full-lt, Made, Made-IsFresh, allocated, fresh_block, fresh_block-size,
  with_buffer_ok, deref-allocated, deref-allocated_other, filled, deref_lem, run, freed, freed-Full,
  freed-IsFresh, delete_buffer_lem,
}
use cwnet.Net.Tftp.{get_serial, get_data_from, extract_tftp_packet, unless_null}
use cwnet.Net.Receive.{
  Extracted, Extracted-after, decoded, decoded-Made, decoded_lem, freed_other, freed_self,
  get_data_from-Made,
}

abbrev finish : ℕ → ℕ → ℕ → M Bool
finish pkt i u = do
  out ← deref pkt
  tftp ← deref u
  filled ← lift (memcpy out.b_addr 0 tftp.b_addr 0 tftp.b_size)
  assign pkt (record { b_addr = filled; b_size = tftp.b_size })
  delete_buffer i
  delete_buffer u
  set_errno 0
  pure true

abbrev unpack_udp : System → ℕ → ℕ → M Bool
unpack_udp sys pkt i = do udp ← get_data_from sys 8 i; unless_null udp λ u. finish pkt i u

abbrev unpack_ip : System → ℕ → ℕ → M Bool
unpack_ip sys pkt a = do
  ip ← get_data_from sys 20 a
  unless_null ip λ i. do delete_buffer a; unpack_udp sys pkt i

-- The state after the packet was copied out.
finished_state : Net → ℕ → ℕ → ℕ → Buffer → Net
finished_state s pkt i u b = record s {
  errno = 0;
  cell = update (update (update s.cell pkt (some b)) i none) u none;
}

module _ (s : Net) (pkt i u : ℕ) (out ip : Buffer) (i_pkt : i ≢ pkt) (u_pkt : u ≢ pkt) (i_u : i ≢ u)
    (at_pkt : s.cell pkt ≡ some out) (at_i : s.cell i ≡ some ip) where
  free_all :
      (b udp : Buffer)
      → s.cell u ≡ some udp
      → ((assign pkt b) >> (delete_buffer i >> (delete_buffer u >> (set_errno 0 >> pure true)))) s
        ≡ some (true, finished_state s pkt i u b)
  unfolding assign delete_buffer set_errno finished_state
  free_all b udp at_u = ground (arith, at_pkt, at_i, at_u, i_pkt, u_pkt, i_u)

  finish-Extracted :
      (tftp : List ℕ)
      → length out.b_addr ≡ max_buffer_size
      → Full s u tftp
      → (s' : Net) × (finish pkt i u s ≡ some (true, s')) × Extracted pkt i tftp (freed s u) s'
  unfolding finished_state freed
  finish-Extracted tftp room full =
      let b = full.block in
      let (filled, copy, same, front) =
        memcpy_lem out.b_addr 0 b.b_addr 0 b.b_size (omega (arith, full.holds.block.in_use))
          (omega (arith, full.holds.block.block_size, full.holds.block.in_use)) in
      let r : Buffer = record { b_addr = filled; b_size = b.b_size } in
      let zeroes : 0 + b.b_size ≡ b.b_size = omega arith in
      (
        finished_state s pkt i u r,
        run (deref pkt) _ s (deref_lem s pkt out at_pkt)
            ∙ run (deref u) _ s (deref_lem s u b full.found)
            ∙ rw copy (free_all r b full.found),
        record {
          holds = record {
            block = r;
            found = ground (arith, i_pkt, u_pkt);
            holds = record {
              block = record { block_size = same ∙ room; in_use = full.holds.block.in_use };
              bytes_eq = ap (λ n. take n filled) (sym zeroes) ∙ front ∙ full.holds.bytes_eq;
            };
          };
          no_error = refl;
          wire_eq = refl;
          gone = ground (arith, i_u);
          next_le = omega arith;
          others = λ c other kept. ground (arith, other, kept);
        },
      )

-- A Buffer that is there has an address that was given out.
found-lt : (s : Net) (p : ℕ) (b : Buffer) → IsFresh s → s.cell p ≡ some b → p < s.next
found-lt s p b fresh at_p = elim (Bool-cases (ltb s.next (suc p))) [
  | inl far ↦ let e : s.cell p ≡ none = fresh p (ground arith) in absurd (cc (e, at_p))
  | inr near ↦ ground arith
]

module _ (sys : System) (s : Net) (pkt : ℕ) (out : Buffer) (fresh : IsFresh s)
    (memory : sys.alloc_ok s.next ≡ true) (at_pkt : s.cell pkt ≡ some out)
    (room : length out.b_addr ≡ max_buffer_size) where
  -- A Buffer that was made and freed again leaves no trace.
  Extracted-before :
      (i : ℕ) (tftp bytes : List ℕ) (s₁ s' : Net)
      → Made s s₁ bytes
      → Extracted pkt i tftp (freed s₁ s.next) s'
      → Extracted pkt i tftp s s'
  unfolding freed
  Extracted-before i tftp bytes s₁ s' m e = record {
    holds = e.holds;
    no_error = e.no_error;
    wire_eq = e.wire_eq ∙ m.wire_eq;
    gone = e.gone;
    next_le = omega (arith, m.next_eq, e.next_le);
    others = λ c other kept. elim (Bool-cases (c == s.next)) [
      | inl new ↦
          let q : c ≡ s.next = ground arith in
          e.others c other kept
          ∙ ap (freed s₁ s.next).cell q
          ∙ freed_self s₁ s.next
          ∙ sym (ap s.cell q ∙ fresh s.next (omega arith))
      | inr old ↦
          let q : c ≢ s.next = λ r. ground arith in
          e.others c other kept ∙ freed_other s₁ s.next c (λ r. q (sym r)) ∙ m.others c q
    ];
  }

  unpack_udp-Extracted :
      (i : ℕ) (hdr tftp : List ℕ)
      → i ≢ pkt
      → Full s i (hdr ++ tftp)
      → length hdr ≡ 8
      → (s' : Net) × (unpack_udp sys pkt i s ≡ some (true, s')) × Extracted pkt i tftp s s'
  unpack_udp-Extracted i hdr tftp differ full e =
      let (s₁, made, m) = get_data_from-Made sys s i 8 hdr tftp fresh memory full e in
      let near = Full-lt fresh full in
      let far = found-lt s pkt out fresh at_pkt in
      let (s', done, x) =
        finish-Extracted s₁ pkt i s.next out full.block differ (λ q. omega arith) (λ q. omega arith)
          (m.others pkt (λ q. omega arith) ∙ at_pkt) (m.others i (λ q. omega arith) ∙ full.found)
          tftp room m.made in
      (s', run (get_data_from sys 8 i) _ s made ∙ done, Extracted-before i tftp tftp s₁ s' m x)

  -- The state after the Buffer `x` was replaced by a new one.
  module _ (x : ℕ) (differ : x ≢ pkt) (near : x < s.next) (bytes : List ℕ) (s₁ : Net)
      (m : Made s s₁ bytes) where
    replaced-IsFresh : IsFresh (freed s₁ x)
    replaced-IsFresh = freed-IsFresh s₁ x (Made-IsFresh s fresh m)

    replaced-pkt : (freed s₁ x).cell pkt ≡ some out
    replaced-pkt =
        let far = found-lt s pkt out fresh at_pkt in
        freed_other s₁ x pkt differ ∙ m.others pkt (λ q. omega arith) ∙ at_pkt

    replaced-Full : Full (freed s₁ x) s.next bytes
    replaced-Full = freed-Full x (λ q. omega arith) m.made

unpack_ip-Extracted :
    (sys : System) (s : Net) (pkt a : ℕ) (out : Buffer) (hdr udp_hdr tftp : List ℕ)
    → IsFresh s
    → sys.alloc_ok s.next ≡ true
    → sys.alloc_ok (suc s.next) ≡ true
    → s.cell pkt ≡ some out
    → length out.b_addr ≡ max_buffer_size
    → a ≢ pkt
    → Full s a (hdr ++ (udp_hdr ++ tftp))
    → length hdr ≡ 20
    → length udp_hdr ≡ 8
    → (s' : Net) × (unpack_ip sys pkt a s ≡ some (true, s')) × Extracted pkt a tftp s s'
unfolding freed
unpack_ip-Extracted sys s pkt a out hdr udp_hdr tftp fresh first second at_pkt room differ full e
      e' =
    let (s₁, made, m) = get_data_from-Made sys s a 20 hdr (udp_hdr ++ tftp) fresh first full e in
    let near = Full-lt fresh full in
    let far = found-lt s pkt out fresh at_pkt in
    let old : s₁.cell a ≡ some full.block = m.others a (λ q. omega arith) ∙ full.found in
    let (s', done, x) =
      unpack_udp-Extracted sys (freed s₁ a) pkt out
        (replaced-IsFresh sys s pkt out fresh first at_pkt room a differ near (udp_hdr ++ tftp) s₁
          m)
        (ap sys.alloc_ok m.next_eq ∙ second)
        (replaced-pkt sys s pkt out fresh first at_pkt room a differ near (udp_hdr ++ tftp) s₁ m)
        room s.next udp_hdr tftp (λ q. omega arith)
        (replaced-Full sys s pkt out fresh first at_pkt room a differ near (udp_hdr ++ tftp) s₁ m)
        e' in
    (
      s',
      run (get_data_from sys 20 a) _ s made
          ∙ run (delete_buffer a) _ s₁ (delete_buffer_lem s₁ a full.block old)
          ∙ done,
      Extracted-after pkt a tftp (udp_hdr ++ tftp) s s₁ s' fresh near differ m x,
    )

-- With memory for its three Buffers, and a packet buffer of the caller other than that of the
-- frame, `extract_tftp_packet` makes of a received frame without escape sequences (20 bytes of an
-- IP header, 8 of a UDP header and the TFTP packet) the TFTP packet in the caller's buffer. The
-- Buffer of the frame is freed, and no other Buffer changes: those that are made on the way are
-- freed again.
pub extract_tftp_packet-Extracted :
    (sys : System) (s : Net) (pkt : ℕ) (out received : Buffer) (hdr udp_hdr tftp tail : List ℕ)
    → IsFresh s
    → (sys.alloc_ok s.next ≡ true)
      × (sys.alloc_ok (suc s.next) ≡ true)
      × (sys.alloc_ok (suc (suc s.next)) ≡ true)
    → s.cell pkt ≡ some out
    → length out.b_addr ≡ max_buffer_size
    → (s.sreq).io_data ≢ pkt
    → s.cell (s.sreq).io_data ≡ some received
    → (f : Frame
        (record { b_addr = received.b_addr; b_size = (s.sreq).io_actual })
        (hdr ++ (udp_hdr ++ tftp))
        tail)
    → length hdr ≡ 20
    → length udp_hdr ≡ 8
    → length (hdr ++ (udp_hdr ++ tftp)) ≡ length f.coded
    → (s' : Net) × (extract_tftp_packet sys pkt s ≡ some (true, s'))
      × Extracted pkt (s.sreq).io_data tftp s s'
unfolding extract_tftp_packet get_serial freed
extract_tftp_packet-Extracted sys s pkt out received hdr udp_hdr tftp tail fresh
      (first, second, third) at_pkt room differ at_io f e e' same =
    let x = (s.sreq).io_data in
    let bytes = hdr ++ (udp_hdr ++ tftp) in
    let frame : Buffer = record { b_addr = received.b_addr; b_size = (s.sreq).io_actual } in
    let (c, decode, ok, no_error, coded) =
      slip_decode_buffer_plain (fresh_block sys s) frame bytes tail (fresh_block-size sys s) f
        same in
    let front =
      slip_decode_buffer_front (fresh_block sys s) frame bytes tail (fresh_block-size sys s) f c
        decode in
    let m = decoded-Made sys s c.dbuf bytes (record { block = front.2; bytes_eq = coded }) in
    let near = found-lt s x received fresh at_io in
    let far = found-lt s pkt out fresh at_pkt in
    let s₁ = decoded sys s c.dbuf in
    let old : s₁.cell x ≡ some received = m.others x (λ q. omega arith) ∙ at_io in
    let (s', done, ex) =
      unpack_ip-Extracted sys (freed s₁ x) pkt s.next out hdr udp_hdr tftp
        (replaced-IsFresh sys s pkt out fresh first at_pkt room x differ near bytes s₁ m)
        (ap sys.alloc_ok m.next_eq ∙ second) (ap sys.alloc_ok (ap suc m.next_eq) ∙ third)
        (replaced-pkt sys s pkt out fresh first at_pkt room x differ near bytes s₁ m) room
        (λ q. omega arith)
        (replaced-Full sys s pkt out fresh first at_pkt room x differ near bytes s₁ m) e e' in
    (
      s',
      with_buffer_ok sys false _ s first
          ∙ run (deref x) _ (allocated sys s) (deref-allocated_other sys s x received fresh at_io)
          ∙ run (deref s.next) _ (allocated sys s) (deref-allocated sys s)
          ∙ rw decode (
              decoded_lem sys s c c.dbuf (delete_buffer x >> unpack_ip sys pkt s.next) (pure false)
                refl no_error ok
              ∙ run (delete_buffer x) _ s₁ (delete_buffer_lem s₁ x received old)
              ∙ done),
      Extracted-after pkt x tftp bytes s s₁ s' fresh near differ m ex,
    )
