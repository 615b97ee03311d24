-- ===== src/Slip.antt =====
-- netio.c, the SLIP layer: `slip_encode_buffer` and `slip_decode_buffer`, with the block that a
-- Buffer points to as a list of bytes and `none` for an access outside a block.
pub mod Spec
pub mod Encode
pub mod Decode
use cwnet.Base.{
  ℕ, zero, suc, ◌+◌, ◌-◌, min, List, Option, none, some, Bool, true, false, if◌then◌else◌, ltb,
  ◌==◌, ◌>>=◌, get_elem?, store,
}

-- `b_addr` is the whole block, of which the first `b_size` bytes are in use.
pub record Buffer : Type 0 where
  pub b_addr : List ℕ
  pub b_size : ℕ

abbrev pub max_buffer_size : ℕ
max_buffer_size = 1024

abbrev pub slip_end : ℕ
slip_end = 0xc0

abbrev pub slip_escaped_end : ℕ
slip_escaped_end = 0xdc

abbrev pub slip_esc : ℕ
slip_esc = 0xdb

abbrev pub slip_escaped_esc : ℕ
slip_escaped_esc = 0xdd

abbrev pub error_bad_number : ℕ
error_bad_number = 115

abbrev pub error_buffer_overflow : ℕ
error_buffer_overflow = 303

-- What a buffer routine leaves: the destination, `g_netio_errno`, and DOSTRUE or DOSFALSE.
pub record Coded : Type 0 where
  pub dbuf : Buffer
  pub errno : ℕ
  pub success : Bool

-- The local variables of the loops: `nbytes`, `nbytes_tot` and the destination's block.
pub record EncodeLocals : Type 0 where
  pub nbytes : ℕ
  pub nbytes_tot : ℕ
  pub dst : List ℕ

-- Two bytes written at `dst`, and the loop's increments.
unfoldable pub put_pair : EncodeLocals → ℕ → ℕ → Option EncodeLocals
put_pair s a b = do
  first ← store s.dst s.nbytes_tot a
  both ← store first (s.nbytes_tot + 1) b
  some (record { nbytes = s.nbytes + 1; nbytes_tot = s.nbytes_tot + 2; dst = both })

unfoldable pub put_one : EncodeLocals → ℕ → Option EncodeLocals
put_one s a = do
  one ← store s.dst s.nbytes_tot a
  some (record { nbytes = s.nbytes + 1; nbytes_tot = s.nbytes_tot + 1; dst = one })

-- One pass of the loop's body, for the byte `*src`.
unfoldable pub encode_byte : ℕ → EncodeLocals → Option EncodeLocals
unfolding put_pair put_one
encode_byte x s =
    if x == slip_end
    then put_pair s slip_esc slip_escaped_end
    else if x == slip_esc
    then put_pair s slip_esc slip_escaped_esc
    else put_one s x

-- The loop, with `sbuf->b_size - nbytes` rounds left.
unfoldable pub encode_loop : List ℕ → ℕ → EncodeLocals → Option EncodeLocals
unfolding encode_byte
encode_loop src zero s = some s
encode_loop src (suc left) s =
    if ltb s.nbytes_tot (max_buffer_size - 1)
    then (do x ← get_elem? src s.nbytes; s' ← encode_byte x s; encode_loop src left s')
    else some s

unfoldable pub encode_result : Buffer → EncodeLocals → Coded
encode_result sbuf s =
    let dbuf : Buffer = record { b_addr = s.dst; b_size = s.nbytes_tot } in
    if ltb s.nbytes sbuf.b_size
    then record { dbuf = dbuf; errno = error_buffer_overflow; success = false }
    else record { dbuf = dbuf; errno = 0; success = true }

unfoldable pub slip_encode_buffer : Buffer → Buffer → Option Coded
unfolding encode_loop encode_result
slip_encode_buffer dbuf sbuf = do
  s ← encode_loop sbuf.b_addr sbuf.b_size (record { nbytes = 0; nbytes_tot = 0; dst = dbuf.b_addr })
  some (encode_result sbuf s)

-- `from` is the index of `src`, which runs ahead of `nbytes` by one for each escape sequence.
pub record DecodeLocals : Type 0 where
  pub nbytes : ℕ
  pub from : ℕ
  pub dst : List ℕ
  pub errno : ℕ

-- The byte that an escape sequence stands for.
unescape : ℕ → Option ℕ
unescape y =
    if y == slip_escaped_end
    then some slip_end
    else if y == slip_escaped_esc
    then some slip_esc
    else none

put_decoded : DecodeLocals → ℕ → ℕ → Option DecodeLocals
put_decoded s v width = do
  dst' ← store s.dst s.nbytes v
  some (record s { nbytes = s.nbytes + 1; from = s.from + width; dst = dst' })

-- The end of an escape sequence: an invalid one breaks out of the loop, else it goes on with `k`.
put_unescaped : DecodeLocals → Option ℕ → (DecodeLocals → Option DecodeLocals) → Option DecodeLocals
put_unescaped s none k = some (record s { from = s.from + 1; errno = error_bad_number })
put_unescaped s (some v) k = put_decoded s v 2 >>= k

-- The loop, with the rounds left by both of its bounds.
decode_loop : List ℕ → ℕ → DecodeLocals → Option DecodeLocals
unfolding put_unescaped
decode_loop src zero s = some s
decode_loop src (suc left) s = do
  x ← get_elem? src s.from
  let plain = put_decoded s x 1 >>= decode_loop src left
  let escaped =
      get_elem? src (s.from + 1) >>= λ y. put_unescaped s (unescape y) (decode_loop src left)
  if x == slip_esc then escaped else plain

decode_result : Buffer → DecodeLocals → Coded
decode_result sbuf s =
    let dbuf : Buffer = record { b_addr = s.dst; b_size = s.nbytes } in
    if ltb s.nbytes sbuf.b_size
    then record { dbuf = dbuf; errno = s.errno; success = false }
    else record { dbuf = dbuf; errno = 0; success = true }

unfoldable pub slip_decode_buffer : Buffer → Buffer → Option Coded
unfolding decode_loop decode_result unescape put_decoded
slip_decode_buffer dbuf sbuf = do
  s ←
      decode_loop sbuf.b_addr (min sbuf.b_size max_buffer_size)
        (record { nbytes = 0; from = 0; dst = dbuf.b_addr; errno = error_buffer_overflow })
  some (decode_result sbuf s)
