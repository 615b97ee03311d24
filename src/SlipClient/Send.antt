-- ===== src/SlipClient/Send.antt =====
-- slip.c: the frame that `send_packet` sends.
use cwnet.Base.{
  ℕ, suc, ◌+◌, ◌-◌, ◌≡◌, ◌≤◌, ◌<◌, ◌^◌, refl, ap, sym, subst, ◌∙◌, List, [], ◌∷◌, ◌++◌, Option,
  none, some, Bool, false, ◌⊎◌, inl, inr, ltb, length, take, arith, append_assoc, lt→ltb, le→ltb,
  ltb→lt, ltb→le, store-some, take-set, Bool-cases, length-append, ℤ, pos,
}
use cwnet.Slip.{slip_end}
use cwnet.Slip.Spec.{encode, encode-append, length-encode-le, length-encode-le_double}
use cwnet.Packet.{ByteOrder, ip_bytes, udp_bytes, udp_header}
use cwnet.Packet.Headers.{IsIpHeader, ip_header-IsIpHeader, udp_bytes-udp_header}
use cwnet.Net.Build.{udp_datagram}
use cwnet.Net.Frame.{slip_frame}
use cwnet.SlipClient.{copy_part, finish_frame, send_packet, below_size, below_int, max_pkt_size}
use cwnet.SlipClient.Copy.{copy_and_encode_data-Result}

module _ (below : ℤ → ℕ → Bool) (natural : (n size : ℕ) → below (pos n) size ≡ ltb n size) where
  -- A part whose coding leaves room in the buffer.
  part_fits :
      (buffer bytes : List ℕ) (tot : ℕ) (next : List ℕ → ℕ → Option (Option (List ℕ)))
      → length buffer ≡ max_pkt_size
      → tot + length (encode bytes) < max_pkt_size
      → (out : List ℕ) × (length out ≡ max_pkt_size)
        × (take (tot + length (encode bytes)) out ≡ take tot buffer ++ encode bytes)
        × (copy_part below buffer bytes tot next ≡ next out (tot + length (encode bytes)))
  unfolding copy_part
  part_fits buffer bytes tot next size room =
      let (out, same, r) =
        copy_and_encode_data-Result buffer tot bytes (max_pkt_size - tot) (omega arith) in
      elim r [
        | inl done ↦
            let all : ltb (length (encode bytes)) (length bytes) ≡ false =
              le→ltb _ _ (length-encode-le bytes) in
            (
              out,
              same ∙ size,
              done.1,
              rw done.0 (rw (natural (length (encode bytes)) (length bytes), all)),
            )
        | inr cut ↦ absurd (omega (arith, cut.1))
      ]

-- The last part, whose coding leaves no room for the end marker.
part_overflows :
    (buffer bytes : List ℕ) (tot : ℕ)
    → length buffer ≡ max_pkt_size
    → tot ≤ max_pkt_size
    → max_pkt_size ≤ tot + length (encode bytes)
    → copy_part below_int buffer bytes tot finish_frame ≡ some none
unfolding copy_part finish_frame
part_overflows buffer bytes tot size inside full =
    let (out, same, r) =
      copy_and_encode_data-Result buffer tot bytes (max_pkt_size - tot) (omega arith) in
    elim r [
      | inl done ↦
          let all : ltb (length (encode bytes)) (length bytes) ≡ false =
            le→ltb _ _ (length-encode-le bytes) in
          let no_room : ltb (tot + length (encode bytes)) max_pkt_size ≡ false = le→ltb _ _ full in
          rw done.0 (rw (all, no_room))
      | inr cut ↦ rw cut.0
    ]

finished :
    (out frame : List ℕ) (tot : ℕ)
    → length out ≡ max_pkt_size
    → tot < max_pkt_size
    → take tot out ≡ frame
    → finish_frame out tot ≡ some (some (frame ++ slip_end ∷ []))
unfolding finish_frame
finished out frame tot size room e =
    let k : tot + 1 ≡ suc tot = omega arith in
    rw (lt→ltb tot max_pkt_size room, store-some out tot slip_end (omega arith), k)
      (ap (λ t. some (some t))
        (take-set tot out slip_end (omega arith) ∙ ap (λ t. t ++ slip_end ∷ []) e))

-- The part for the data, behind headers of which `front` is the coding.
last_part :
    (buffer bytes front : List ℕ) (tot : ℕ)
    → length buffer ≡ max_pkt_size
    → tot < max_pkt_size
    → take tot buffer ≡ front
    → ((tot + length (encode bytes) < max_pkt_size)
        × (copy_part below_int buffer bytes tot finish_frame
            ≡ some (some ((front ++ encode bytes) ++ slip_end ∷ []))))
      ⊎ ((max_pkt_size ≤ tot + length (encode bytes))
          × (copy_part below_int buffer bytes tot finish_frame ≡ some none))
last_part buffer bytes front tot size small before =
    elim (Bool-cases (ltb (tot + length (encode bytes)) max_pkt_size)) [
      | inl e ↦
          let room = ltb→lt _ _ e in
          let (out, same, done, run) =
            part_fits below_int (λ n k. refl) buffer bytes tot finish_frame size room in
          inl (
            room,
            run
                ∙ finished out (front ++ encode bytes) (tot + length (encode bytes)) same room
                    (done ∙ ap (λ t. t ++ encode bytes) before),
          )
      | inr e ↦
          let full = ltb→le _ _ e in
          inr (full, part_overflows buffer bytes tot size (omega arith) full)
    ]

-- The headers of 28 bytes always fit.
headers_copied :
    (buffer ip udp : List ℕ) (next : List ℕ → ℕ → Option (Option (List ℕ)))
    → length buffer ≡ max_pkt_size
    → length ip + length udp ≤ 28
    → (out : List ℕ) × (tot : ℕ) × (length out ≡ max_pkt_size)
      × (tot ≡ length (encode ip) + length (encode udp))
      × (tot < max_pkt_size)
      × (take tot out ≡ encode ip ++ encode udp)
      × (copy_part below_size buffer ip 0 (λ b at. copy_part below_size b udp at next)
          ≡ next out tot)
headers_copied buffer ip udp next size small =
    let a = length-encode-le_double ip in
    let b = length-encode-le_double udp in
    let (out₁, size₁, done₁, run₁) =
      part_fits below_size (λ n k. refl) buffer ip 0 (λ b at. copy_part below_size b udp at next)
        size (omega arith) in
    let (out₂, size₂, done₂, run₂) =
      part_fits below_size (λ n k. refl) out₁ udp (0 + length (encode ip)) next size₁
        (omega arith) in
    (
      out₂,
      0 + length (encode ip) + length (encode udp),
      size₂,
      omega arith,
      omega arith,
      done₂ ∙ ap (λ t. t ++ encode udp) done₁,
      run₁ ∙ run₂,
    )

encode_parts :
    (ip udp bytes : List ℕ)
    → encode (ip ++ (udp ++ bytes)) ≡ (encode ip ++ encode udp) ++ encode bytes
encode_parts ip udp bytes =
    encode-append ip (udp ++ bytes)
    ∙ ap (◌++◌ (encode ip)) (encode-append udp bytes)
    ∙ sym (append_assoc (encode ip) (encode udp) (encode bytes))

length-encode_parts :
    (ip udp bytes : List ℕ)
    → length (encode (ip ++ (udp ++ bytes)))
      ≡ length (encode ip) + length (encode udp) + length (encode bytes)
length-encode_parts ip udp bytes = omega (
  arith,
  ap length (encode_parts ip udp bytes),
  length-append (encode ip ++ encode udp) (encode bytes),
  length-append (encode ip) (encode udp),
)

-- How a send of `packet` ends.
abbrev pub Framed : Option (Option (List ℕ)) → List ℕ → Type 0
Framed sent packet =
    ((length (encode packet) < max_pkt_size) × (sent ≡ some (some (slip_frame packet))))
    ⊎ ((max_pkt_size ≤ length (encode packet)) × (sent ≡ some none))

parts-Framed :
    (buffer ip udp bytes : List ℕ)
    → length buffer ≡ max_pkt_size
    → length ip + length udp ≤ 28
    → Framed
        (copy_part below_size buffer ip 0 λ b tot.
          copy_part below_size b udp tot λ b' tot'. copy_part below_int b' bytes tot' finish_frame)
        (ip ++ (udp ++ bytes))
parts-Framed buffer ip udp bytes size small =
    let (out, tot, size', total, room, front, run) =
      headers_copied buffer ip udp (λ b' tot'. copy_part below_int b' bytes tot' finish_frame) size
        small in
    elim (last_part out bytes (encode ip ++ encode udp) tot size' room front) [
      | inl fits ↦ inl (
        omega (arith, fits.0, length-encode_parts ip udp bytes, total),
        run ∙ fits.1 ∙ ap (λ t. some (some (t ++ slip_end ∷ []))) (sym (encode_parts ip udp bytes)),
      )
      | inr full ↦
          inr (omega (arith, full.0, length-encode_parts ip udp bytes, total), run ∙ full.1)
    ]

-- For data of less than 65508 bytes, under either byte order and whatever its buffer held,
-- `send_packet` accesses nothing outside the buffer. It sends the frame of an IP packet with a
-- header that verifies and the UDP datagram of the data, as `send_tftp_packet` of netio.c does,
-- exactly when the coding of the packet takes less than 65535 bytes, and returns -1 otherwise.
pub send_packet-Framed :
    (order : ByteOrder) (buffer bytes : List ℕ)
    → length buffer ≡ max_pkt_size
    → 28 + length bytes < 2 ^ 16
    → (header : List ℕ) × IsIpHeader order (8 + length bytes) header
      × Framed (send_packet order buffer bytes) (header ++ udp_datagram bytes)
unfolding send_packet udp_datagram
send_packet-Framed order buffer bytes size fits =
    let (h, built, ok) = ip_header-IsIpHeader order (8 + length bytes) (omega arith) in
    let udp = udp_bytes order (udp_header order (length bytes)) in
    let udp_eq = udp_bytes-udp_header order (length bytes) (omega arith) in
    (
      ip_bytes order h,
      ok,
      rw built (
          subst
            (λ u.
              Framed
                (copy_part below_size buffer (ip_bytes order h) 0 λ b tot.
                  copy_part below_size b udp tot
                    λ b' tot'. copy_part below_int b' bytes tot' finish_frame)
                (ip_bytes order h ++ (u ++ bytes)))
            udp_eq
            (parts-Framed buffer (ip_bytes order h) udp bytes size
              (omega (arith, ok.byte_count, ap length udp_eq)))),
    )
