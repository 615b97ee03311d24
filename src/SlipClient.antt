-- ===== src/SlipClient.antt =====
-- slip.c, the command that sends one request packet over a socket: its own SLIP coder, which copies
-- to a part of a buffer, and `send_packet`, with `none` for an access outside an array.
pub mod Copy
pub mod Agreement
pub mod Send
pub mod Command
use cwnet.Base.{
  ℕ, zero, suc, ◌+◌, ◌-◌, ◌≤◌, List, [], ◌∷◌, ◌++◌, Option, none, some, Bool, true, false,
  if◌then◌else◌, ltb, leb, ◌==◌, ◌>>=◌, take, length, store, ℤ, pos, negsuc,
}
use cwnet.Slip.{slip_end, slip_escaped_end, slip_esc, slip_escaped_esc}
use cwnet.Packet.{ByteOrder, ip_header, ip_bytes, udp_header, udp_bytes, ip_hdr_len, udp_hdr_len}

abbrev pub max_pkt_size : ℕ
max_pkt_size = 65535

-- `at` is where `dst` points to in the buffer.
pub record CopyLocals : Type 0 where
  pub nbytes : ℕ
  pub nbytes_tot : ℕ
  pub at : ℕ
  pub buffer : List ℕ

-- `*dst = SLIP_ESC`, the increments, and the second byte.
copy_escaped : ℕ → CopyLocals → Option CopyLocals
copy_escaped code s = do
  first ← store s.buffer s.at slip_esc
  both ← store first (s.at + 1) code
  some (record s { nbytes_tot = s.nbytes_tot + 1; at = s.at + 1; buffer = both })

copy_plain : ℕ → CopyLocals → Option CopyLocals
copy_plain x s = do one ← store s.buffer s.at x; some (record s { buffer = one })

copy_byte : ℕ → CopyLocals → Option CopyLocals
unfolding copy_escaped copy_plain
copy_byte x s =
    if x == slip_end
    then copy_escaped slip_escaped_end s
    else if x == slip_esc
    then copy_escaped slip_escaped_esc s
    else copy_plain x s

-- The increments of the `for` statement.
advance : CopyLocals → CopyLocals
advance s = record s { nbytes = s.nbytes + 1; nbytes_tot = s.nbytes_tot + 1; at = s.at + 1 }

-- The loop, with `datalen - nbytes` rounds left and `src` at the start of the list.
copy_loop : ℕ → ℕ → List ℕ → CopyLocals → Option CopyLocals
unfolding copy_byte advance
copy_loop buflen zero src s = some s
copy_loop buflen (suc left) [] s = if ltb s.nbytes_tot (buflen - 1) then none else some s
copy_loop buflen (suc left) (x ∷ src) s =
    if ltb s.nbytes_tot (buflen - 1)
    then (do written ← copy_byte x s; copy_loop buflen left src (advance written))
    else some s

-- The value that is returned, and the buffer.
unfoldable pub copy_and_encode_data : List ℕ → ℕ → List ℕ → ℕ → ℕ → Option (ℤ × List ℕ)
unfolding copy_loop
copy_and_encode_data buffer at data_bytes buflen datalen = do
  s ←
      copy_loop buflen datalen data_bytes
        (record { nbytes = 0; nbytes_tot = 0; at = at; buffer = buffer })
  some (if ltb s.nbytes datalen then negsuc 0 else pos s.nbytes_tot, s.buffer)

-- `nbytes < size` for a size_t, for which -1 is the largest number, and for an int.
abbrev pub below_size : ℤ → ℕ → Bool
below_size (pos n) size = ltb n size
below_size (negsuc n) size = false

abbrev pub below_int : ℤ → ℕ → Bool
below_int (pos n) size = ltb n size
below_int (negsuc n) size = true

-- `nbytes_tot += nbytes`. A negative sum, for a place before the buffer, does not come up.
abbrev pub add_int : ℕ → ℤ → Option ℕ
add_int tot (pos n) = some (tot + n)
add_int tot (negsuc n) = if leb (n + 1) tot then some (tot - (n + 1)) else none

-- One of the three copies of `send_packet` and what follows it, with `none` inside for -1.
unfoldable pub copy_part :
    (ℤ → ℕ → Bool)
    → List ℕ
    → List ℕ
    → ℕ
    → (List ℕ → ℕ → Option (Option (List ℕ)))
    → Option (Option (List ℕ))
copy_part below buffer bytes tot next = do
  let datalen = length bytes
  copied ← copy_and_encode_data buffer tot bytes (max_pkt_size - tot) datalen
  let go_on = add_int tot copied.0 >>= λ tot'. next copied.1 tot'
  if below copied.0 datalen then some none else go_on

-- The end marker, and the bytes that are given to `send`.
unfoldable pub finish_frame : List ℕ → ℕ → Option (Option (List ℕ))
finish_frame buffer tot =
    let marked = store buffer tot slip_end >>= λ b. some (some (take (tot + 1) b)) in
    if ltb tot max_pkt_size then marked else some none

unfoldable pub send_packet : ByteOrder → List ℕ → List ℕ → Option (Option (List ℕ))
unfolding copy_part finish_frame
send_packet order buffer bytes = do
  iphdr ← ip_header order (udp_hdr_len + length bytes)
  let udphdr = udp_bytes order (udp_header order (length bytes))
  copy_part below_size buffer (ip_bytes order iphdr) 0 λ b tot.
      copy_part below_size b udphdr tot λ b' tot'. copy_part below_int b' bytes tot' finish_frame
