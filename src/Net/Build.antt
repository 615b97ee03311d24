-- ===== src/Net/Build.antt =====
-- The layers on the heap: what `create_udp_packet`, `create_ip_packet` and `create_slip_frame` make.
use cwnet.Base.{
  ℕ, ◌+◌, ◌/◌, ◌%◌, ◌≡◌, ◌≤◌, ap, sym, subst, ◌∙◌, List, ◌∷◌, ◌++◌, none, some, true, false, length,
  arith, ltb, le→ltb,
}
use cwnet.Slip.{max_buffer_size}
use cwnet.Packet.{put_packet, udp_bytes, udp_header, ip_bytes, u32, udp_hdr_len, ip_hdr_len}
use cwnet.Packet.Copy.{Holds-size, put_packet-Holds}
use cwnet.Packet.Headers.{udp_bytes-udp_header, ip_header-IsIpHeader, IsIpHeader}
use cwnet.Net.State.{System, Net, ◌>>=◌, ◌>>◌, pure, lift, set_errno, deref, assign}
use cwnet.Net.Laws.{
  IsFresh, Full, Made, allocated, fresh_block, fresh_block-size, with_buffer_ok, deref-allocated,
  filled, fill_lem, filled-Made, deref_lem, run,
}
use cwnet.Net.Tftp.{create_udp_packet, create_ip_packet}

-- The UDP datagram with the program's ports around the payload.
unfoldable pub udp_datagram : List ℕ → List ℕ
udp_datagram bytes =
    0x12 ∷ 0x67 ∷ 0 ∷ 69 ∷ ((8 + length bytes) / 256) ∷ ((8 + length bytes) % 256) ∷ 0 ∷ 0 ∷ bytes

pub length-udp_datagram : (bytes : List ℕ) → length (udp_datagram bytes) ≡ 8 + length bytes
unfolding udp_datagram
length-udp_datagram bytes = omega arith

module _ (sys : System) (s : Net) (p : ℕ) (bytes : List ℕ) (fresh : IsFresh s)
    (memory : sys.alloc_ok s.next ≡ true) (f : Full s p bytes) where
  size_eq : (f.block).b_size ≡ length bytes
  size_eq = Holds-size f.block bytes f.holds

  -- The buffer is filled with `hdr` and the payload.
  fill-Made :
      (hdr : List ℕ)
      → length hdr + length bytes ≤ max_buffer_size
      → (s' : Net) × (((deref s.next) >>= λ pkt. lift (put_packet hdr pkt f.block) >>= λ r.
              assign s.next r >> (set_errno 0 >> pure (some s.next)))
            (allocated sys s)
          ≡ some (some s.next, s'))
        × Made s s' (hdr ++ bytes)
  fill-Made hdr fits =
      let (r, put, h) =
        put_packet-Holds hdr (fresh_block sys s) f.block bytes (fresh_block-size sys s) f.holds
          fits in
      (
        filled sys s r,
        run (deref s.next) _ (allocated sys s) (deref-allocated sys s) ∙ rw put (fill_lem sys s r),
        filled-Made sys s r (hdr ++ bytes) h,
      )

  udp_datagram_lem :
      8 + length bytes ≤ max_buffer_size
      → udp_bytes sys.order (udp_header sys.order (f.block).b_size) ++ bytes ≡ udp_datagram bytes
  unfolding udp_datagram
  udp_datagram_lem fits = rw (size_eq, udp_bytes-udp_header sys.order (length bytes) (omega arith))

  -- With memory for its Buffer and room in it, `create_udp_packet` makes the UDP datagram of its
  -- data, and nothing else on the heap, the wire or the requests changes.
  pub create_udp_packet-Made :
      8 + length bytes ≤ max_buffer_size
      → (s' : Net) × (create_udp_packet sys p s ≡ some (some s.next, s'))
        × Made s s' (udp_datagram bytes)
  unfolding create_udp_packet
  create_udp_packet-Made fits =
      let hdr = udp_bytes sys.order (udp_header sys.order (f.block).b_size) in
      let hdr_eq = udp_bytes-udp_header sys.order (f.block).b_size (omega (arith, size_eq)) in
      let (s', done, m) = fill-Made hdr (omega (arith, ap length hdr_eq)) in
      let small : ltb max_buffer_size (u32 (udp_hdr_len + (f.block).b_size)) ≡ false =
        le→ltb _ _ (omega (arith, size_eq)) in
      (
        s',
        run (deref p) _ s (deref_lem s p f.block f.found)
            ∙ rw small (with_buffer_ok sys none _ s memory ∙ done),
        subst (Made s s') (udp_datagram_lem fits) m,
      )

  -- With memory for its Buffer and room in it, `create_ip_packet` puts before its data an IP header
  -- that has the length of the packet and a checksum that verifies.
  pub create_ip_packet-Made :
      20 + length bytes ≤ max_buffer_size
      → (s' : Net) × (hdr : List ℕ) × (create_ip_packet sys p s ≡ some (some s.next, s'))
        × Made s s' (hdr ++ bytes)
        × IsIpHeader sys.order (length bytes) hdr
  unfolding create_ip_packet
  create_ip_packet-Made fits =
      let (h, built, ok) =
        ip_header-IsIpHeader sys.order (f.block).b_size (omega (arith, size_eq)) in
      let hdr = ip_bytes sys.order h in
      let (s', done, m) = fill-Made hdr (omega (arith, ok.byte_count)) in
      let small : ltb max_buffer_size (u32 (ip_hdr_len + (f.block).b_size)) ≡ false =
        le→ltb _ _ (omega (arith, size_eq)) in
      (
        s',
        hdr,
        run (deref p) _ s (deref_lem s p f.block f.found)
            ∙ rw small (
                with_buffer_ok sys none _ s memory
                ∙ run (deref s.next) _ (allocated sys s) (deref-allocated sys s)
                ∙ rw built
                    (sym (run (deref s.next) _ (allocated sys s) (deref-allocated sys s)) ∙ done)),
        m,
        rw (← size_eq) ok,
      )
