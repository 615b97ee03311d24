-- ===== src/Slip/Encode/Whole.antt =====
-- The result of `slip_encode_buffer`, after its loop.
use cwnet.Base.{
  ℕ, ◌+◌, ◌≡◌, ◌≤◌, ◌<◌, refl, List, [], ◌∷◌, ◌++◌, some, true, false, ◌⊎◌, inl, inr, ltb, length,
  take, arith, append-nil, ap, ◌∙◌, lt→ltb, le→ltb, Bool-cases, length-take, length-append,
}
use cwnet.Slip.{
  Buffer, Coded, EncodeLocals, encode_result, slip_encode_buffer, max_buffer_size,
  error_buffer_overflow,
}
use cwnet.Slip.Spec.{encode, encode-append, length-encode-le}
use cwnet.Slip.Encode.{Encodes, encode_loop-Encodes}

-- The part of a block that is in use.
abbrev pub contents : Buffer → List ℕ
contents b = take b.b_size b.b_addr

-- The block of a packet buffer has the size of every packet buffer, and its use stays within it.
pub record IsBlock (b : Buffer) : Type 0 where
  pub block_size : length b.b_addr ≡ max_buffer_size
  pub in_use : b.b_size ≤ max_buffer_size

pub record EncodedAll (payload : List ℕ) (r : Coded) : Type 0 where
  pub ok : r.success ≡ true
  pub no_error : r.errno ≡ 0
  pub coded : contents r.dbuf ≡ encode payload
  pub size : r.dbuf.b_size ≡ length (encode payload)

pub record Overflows (payload : List ℕ) (r : Coded) : Type 0 where
  pub failed : r.success ≡ false
  pub overflow : r.errno ≡ error_buffer_overflow
  pub too_long : max_buffer_size ≤ length (encode payload)

nil_or_longer : (xs : List ℕ) → (xs ≡ []) ⊎ (1 ≤ length xs)
nil_or_longer [] = inl refl
nil_or_longer (x ∷ xs) = inr (omega arith)

result-IsBlock :
    (b : Buffer) (s : EncodeLocals)
    → length s.dst ≡ max_buffer_size
    → s.nbytes_tot ≤ max_buffer_size
    → IsBlock (encode_result b s).dbuf
unfolding encode_result
result-IsBlock b s p q = ground arith

module _ (b : Buffer) (s₀ s : EncodeLocals) (start : s₀.nbytes ≡ 0) (begin : s₀.nbytes_tot ≡ 0)
    (p : b.b_size ≤ length b.b_addr) (e : Encodes b.b_addr b.b_size s₀ s) where
  payload_split : contents b ≡ e.consumed ++ e.remaining
  payload_split = rw start at e.source_split

  payload_length : length e.consumed + length e.remaining ≡ b.b_size
  payload_length = omega (
    arith,
    ap length payload_split,
    length-append e.consumed e.remaining,
    length-take b.b_size b.b_addr,
  )

  encode_split : encode (contents b) ≡ encode e.consumed ++ encode e.remaining
  encode_split = ap encode payload_split ∙ encode-append e.consumed e.remaining

  result_overflow : s.nbytes < b.b_size → Overflows (contents b) (encode_result b s)
  unfolding encode_result
  result_overflow cut = rw (lt→ltb s.nbytes b.b_size cut) (record {
    failed = refl;
    overflow = refl;
    too_long = ground (
      arith,
      payload_length,
      nil_or_longer e.remaining,
      ap length encode_split,
      length-append (encode e.consumed) (encode e.remaining),
      length-encode-le e.remaining,
      e.stops,
      e.wrote.nbytes_eq,
      e.wrote.tot_eq,
    );
  })

  all_consumed : b.b_size ≤ s.nbytes → contents b ≡ e.consumed
  all_consumed all = ground (
    arith,
    payload_length,
    nil_or_longer e.remaining,
    payload_split,
    append-nil e.consumed,
    e.wrote.nbytes_eq,
  )

  result_all : b.b_size ≤ s.nbytes → EncodedAll (contents b) (encode_result b s)
  unfolding encode_result
  result_all all =
      rw (le→ltb s.nbytes b.b_size all, all_consumed all)
        (record {
          ok = refl;
          no_error = refl;
          coded = rw begin at e.wrote.written;
          size = omega (arith, begin, e.wrote.tot_eq);
        })

-- With a source within its block and a packet buffer as destination, `slip_encode_buffer` writes
-- nothing outside the destination, and either leaves the SLIP coding of the whole source there
-- with no error, or reports an overflow, and then the coding takes the whole block or more.
pub slip_encode_buffer_lem :
    (dbuf sbuf : Buffer)
    → length dbuf.b_addr ≡ max_buffer_size
    → sbuf.b_size ≤ length sbuf.b_addr
    → (r : Coded) × (slip_encode_buffer dbuf sbuf ≡ some r)
      × IsBlock r.dbuf
      × (EncodedAll (contents sbuf) r ⊎ Overflows (contents sbuf) r)
unfolding slip_encode_buffer
slip_encode_buffer_lem dbuf sbuf block h =
    let s₀ : EncodeLocals = record { nbytes = 0; nbytes_tot = 0; dst = dbuf.b_addr } in
    let (s, run, e) =
      encode_loop-Encodes sbuf.b_addr sbuf.b_size s₀ (omega arith) block (omega arith) in
    (
      encode_result sbuf s,
      rw run,
      result-IsBlock sbuf s (e.wrote.block_eq ∙ block) e.within,
      elim (Bool-cases (ltb s.nbytes sbuf.b_size)) [
        | inl cut ↦ inr (result_overflow sbuf s₀ s refl refl h e (ground arith))
        | inr all ↦ inl (result_all sbuf s₀ s refl refl h e (ground arith))
      ],
    )
