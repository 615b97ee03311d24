-- ===== src/Slip/Decode/Whole.antt =====
-- The result of `slip_decode_buffer`, after its loop.
use cwnet.Base.{
  ℕ, ◌-◌, ◌≡◌, ◌≤◌, ◌<◌, List, [], ◌++◌, Option, none, some, true, false, ltb, length, take, arith,
  ap, sym, ◌∙◌, le→ltb, ◌>>=◌, length-append, min, >>=-eq-some,
}
use cwnet.Slip.{
  Buffer, Coded, DecodeLocals, decode_loop, decode_result, slip_decode_buffer, max_buffer_size,
  error_buffer_overflow,
}
use cwnet.Slip.Spec.{Codes, Codes-length}
use cwnet.Slip.Encode.Whole.{contents, IsBlock}
use cwnet.Slip.Decode.{Decoded, decode_loop-Codes, decode_loop-Extends, decode_loop-fault}

decode_start : Buffer → DecodeLocals
decode_start dbuf = record {
  nbytes = 0;
  from = 0;
  dst = dbuf.b_addr;
  errno = error_buffer_overflow;
}

decode_result_lem :
    (sbuf : Buffer) (t : DecodeLocals) (r : Coded)
    → ◌≡◌ {A = Option Coded} (some (decode_result sbuf t)) (some r)
    → (r.dbuf.b_addr ≡ t.dst)
      × (r.dbuf.b_size ≡ t.nbytes)
      × (r.success ≡ true → sbuf.b_size ≤ r.dbuf.b_size)
unfolding decode_result
decode_result_lem sbuf t r h = ground arith

-- A frame of `b_size` bytes, which a receiver reads as `d`, in a block that goes on with `tail`.
pub record Frame (sbuf : Buffer) (d tail : List ℕ) : Type 0 where
  pub coded : List ℕ
  pub block : sbuf.b_addr ≡ coded ++ tail
  pub size : sbuf.b_size ≡ length coded
  pub fits : sbuf.b_size ≤ max_buffer_size
  pub codes : Codes coded d

module _ (dbuf sbuf : Buffer) (d tail : List ℕ) (room : length dbuf.b_addr ≡ max_buffer_size)
    (f : Frame sbuf d tail) where
  -- The rounds that are left when the frame has been read.
  surplus : ℕ
  surplus = sbuf.b_size - length d

  read_frame :
      (s : DecodeLocals) × (decode_loop sbuf.b_addr
          (min sbuf.b_size max_buffer_size)
          (decode_start dbuf)
        ≡ decode_loop sbuf.b_addr surplus s)
      × Decoded (decode_start dbuf) s f.coded d
  unfolding surplus decode_start
  read_frame =
      let shorter = Codes-length f.codes in
      decode_loop-Codes sbuf.b_addr tail (sbuf.b_size - length d) (min sbuf.b_size max_buffer_size)
        (decode_start dbuf) f.codes f.block (omega (arith, f.size, f.fits))
        (omega (arith, f.size, f.fits))

  run_frame :
      (s : DecodeLocals)
      → decode_loop sbuf.b_addr (min sbuf.b_size max_buffer_size) (decode_start dbuf)
        ≡ decode_loop sbuf.b_addr surplus s
      → slip_decode_buffer dbuf sbuf
        ≡ (decode_loop sbuf.b_addr surplus s >>= λ t. some (decode_result sbuf t))
  unfolding slip_decode_buffer decode_start
  run_frame s e = ap (λ m. m >>= λ t. some (decode_result sbuf t)) e

  -- A frame without escape sequences, as long as a packet buffer at most, is decoded without an
  -- error to what was sent, with a packet buffer as destination.
  pub slip_decode_buffer_plain :
      length d ≡ length f.coded
      → (r : Coded) × (slip_decode_buffer dbuf sbuf ≡ some r)
        × (r.success ≡ true)
        × (r.errno ≡ 0)
        × (contents r.dbuf ≡ d)
  unfolding decode_result decode_loop
  slip_decode_buffer_plain same =
      let (s, e, v) = read_frame in
      let none_left : surplus ≡ 0 = unfold surplus in omega (arith, f.size) in
      let all : ltb s.nbytes sbuf.b_size ≡ false =
        le→ltb s.nbytes sbuf.b_size (unfold decode_start in omega (arith, v.nbytes_eq, f.size)) in
      (
        decode_result sbuf s,
        run_frame s e ∙ rw none_left,
        rw all,
        rw all,
        rw all (unfold decode_start in v.written),
      )

  -- Whatever stands behind the frame in its block, a run of `slip_decode_buffer` that returns has
  -- the packet at the front of the destination, which is a packet buffer; and where it reports
  -- success, the size that it sets is that of the coding and not of the packet.
  pub slip_decode_buffer_front :
      (r : Coded)
      → slip_decode_buffer dbuf sbuf ≡ some r
      → (take (length d) r.dbuf.b_addr ≡ d)
        × (r.success ≡ true → r.dbuf.b_size ≡ length f.coded)
        × IsBlock r.dbuf
  unfolding decode_start surplus
  slip_decode_buffer_front r h =
      let (s, run, v) = read_frame in
      let (t, rest, e) =
        >>=-eq-some (decode_loop sbuf.b_addr surplus s) _ (sym (run_frame s run) ∙ h) in
      let w = decode_loop-Extends sbuf.b_addr surplus s rest in
      let (addr, size, all) = decode_result_lem sbuf t r e in
      let shorter = Codes-length f.codes in
      let count : s.nbytes ≡ length d = omega (arith, v.nbytes_eq) in
      let front : take (length d) t.dst ≡ d =
        ap (λ n. take n t.dst) (sym count) ∙ w.kept ∙ v.written in
      (
        ap (take (length d)) addr ∙ front,
        λ ok. omega (arith, all ok, size, w.bounded, f.size, count),
        record {
          block_size = ap length addr ∙ w.block_eq ∙ v.block_eq ∙ room;
          in_use = omega (arith, size, w.bounded, f.size, f.fits, count);
        },
      )

  -- Where the block ends with the frame, one escape sequence makes the loop of `slip_decode_buffer`
  -- read past the block.
  pub slip_decode_buffer_overrun :
      tail ≡ [] → length d < length f.coded → slip_decode_buffer dbuf sbuf ≡ none
  slip_decode_buffer_overrun e h =
      let (s, run, v) = read_frame in
      let past : length sbuf.b_addr ≤ s.from =
        unfold decode_start in
        omega (arith, v.from_eq, ap length f.block, ap length e, length-append f.coded tail) in
      let more : 0 < surplus = unfold surplus in omega (arith, f.size) in
      run_frame s run
      ∙ ap (λ m. m >>= λ t. some (decode_result sbuf t))
          (decode_loop-fault sbuf.b_addr surplus s more past)
