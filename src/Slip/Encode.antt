-- ===== src/Slip/Encode.antt =====
-- `slip_encode_buffer` against the coding of the specification.
pub mod Whole
use cwnet.Base.{
  ℕ, zero, suc, ◌+◌, ◌-◌, ◌≡◌, ◌≤◌, ◌<◌, refl, List, [], ◌∷◌, ◌++◌, some, true, false, ◌⊎◌, inl,
  inr, ltb, ◌==◌, length, take, drop, set, arith, append_assoc, append-nil, ap, sym, ◌∙◌, lt→ltb,
  le→ltb, store-some, length-set, take-set, drop-get_elem?, Bool-cases, length-take, length-append,
}
use cwnet.Slip.{
  Buffer, Coded, EncodeLocals, put_pair, put_one, encode_byte, encode_loop, encode_result,
  slip_encode_buffer, max_buffer_size, slip_end, slip_esc, slip_escaped_end, slip_escaped_esc,
  error_buffer_overflow,
}
use cwnet.Slip.Spec.{escape, encode, encode-nil, encode-cons, encode-append, length-encode-le}

-- `s'` is `s` after `taken` bytes of the source were written as `bs`.
pub record Wrote (s s' : EncodeLocals) (taken : ℕ) (bs : List ℕ) : Type 0 where
  pub nbytes_eq : s'.nbytes ≡ s.nbytes + taken
  pub tot_eq : s'.nbytes_tot ≡ s.nbytes_tot + length bs
  pub written : take s'.nbytes_tot s'.dst ≡ take s.nbytes_tot s.dst ++ bs
  pub block_eq : length s'.dst ≡ length s.dst

take-set_two :
    (n : ℕ) (xs : List ℕ) (a b : ℕ)
    → n + 1 < length xs
    → take (n + 2) (set (set xs n a) (n + 1) b) ≡ take n xs ++ a ∷ b ∷ []
take-set_two n xs a b h =
    let e : n + 2 ≡ suc (suc n) = omega arith in
    let e' : n + 1 ≡ suc n = omega arith in
    rw
      (
        e,
        e',
        take-set (suc n) (set xs n a) b (rw length-set (omega arith)),
        take-set n xs a (omega arith),
      )
      (append_assoc (take n xs) (a ∷ []) (b ∷ []))

put_pair-Wrote :
    (s : EncodeLocals) (a b : ℕ)
    → s.nbytes_tot + 1 < length s.dst
    → (s' : EncodeLocals) × (put_pair s a b ≡ some s') × Wrote s s' 1 (a ∷ b ∷ [])
unfolding put_pair
put_pair-Wrote s a b h = (
  record {
    nbytes = s.nbytes + 1;
    nbytes_tot = s.nbytes_tot + 2;
    dst = set (set s.dst s.nbytes_tot a) (s.nbytes_tot + 1) b;
  },
  rw (
    store-some s.dst s.nbytes_tot a (omega arith),
    store-some (set s.dst s.nbytes_tot a) (s.nbytes_tot + 1) b (rw length-set h),
  ),
  record {
    nbytes_eq = refl;
    tot_eq = refl;
    written = take-set_two s.nbytes_tot s.dst a b h;
    block_eq = rw (length-set, length-set);
  },
)

put_one-Wrote :
    (s : EncodeLocals) (a : ℕ)
    → s.nbytes_tot < length s.dst
    → (s' : EncodeLocals) × (put_one s a ≡ some s') × Wrote s s' 1 (a ∷ [])
unfolding put_one
put_one-Wrote s a h = (
  record { nbytes = s.nbytes + 1; nbytes_tot = s.nbytes_tot + 1; dst = set s.dst s.nbytes_tot a },
  rw (store-some s.dst s.nbytes_tot a h),
  record {
    nbytes_eq = refl;
    tot_eq = refl;
    written =
        let e : s.nbytes_tot + 1 ≡ suc s.nbytes_tot = omega arith in
        rw e (take-set s.nbytes_tot s.dst a h);
    block_eq = rw length-set;
  },
)

encode_byte-Wrote :
    (x : ℕ) (s : EncodeLocals)
    → s.nbytes_tot + 1 < length s.dst
    → (s' : EncodeLocals) × (encode_byte x s ≡ some s') × Wrote s s' 1 (escape x)
unfolding encode_byte
encode_byte-Wrote x s h = elim (Bool-cases (x == slip_end)) [
  | inl e ↦ rw e (put_pair-Wrote s slip_esc slip_escaped_end h)
  | inr e ↦ elim (Bool-cases (x == slip_esc)) [
    | inl f ↦ rw (e, f) (put_pair-Wrote s slip_esc slip_escaped_esc h)
    | inr f ↦ rw (e, f) (put_one-Wrote s x (omega arith))
  ]
]

-- The loop consumes a prefix of what is left of the source, and stops before the end of the
-- source only with a destination that has no room for a pair.
pub record Encodes (src : List ℕ) (left : ℕ) (s s' : EncodeLocals) : Type 0 where
  pub consumed : List ℕ
  pub remaining : List ℕ
  pub source_split : take left (drop s.nbytes src) ≡ consumed ++ remaining
  pub wrote : Wrote s s' (length consumed) (encode consumed)
  pub within : s'.nbytes_tot ≤ max_buffer_size
  pub stops : (remaining ≡ []) ⊎ (max_buffer_size - 1 ≤ s'.nbytes_tot)

escape-le : (x : ℕ) → length (escape x) ≤ 2
escape-le x = ground arith

Wrote-refl : (s : EncodeLocals) → Wrote s s 0 (encode [])
Wrote-refl s = rw encode-nil (record {
  nbytes_eq = omega arith;
  tot_eq = omega arith;
  written = sym (append-nil (take s.nbytes_tot s.dst));
  block_eq = refl;
})

Wrote-cons :
    {s s' s'' : EncodeLocals} (x : ℕ) (xs : List ℕ)
    → Wrote s s' 1 (escape x)
    → Wrote s' s'' (length xs) (encode xs)
    → Wrote s s'' (length (x ∷ xs)) (encode (x ∷ xs))
Wrote-cons {s} x xs v w = rw encode-cons (record {
  nbytes_eq = omega (arith, v.nbytes_eq, w.nbytes_eq);
  tot_eq = omega (arith, v.tot_eq, w.tot_eq, length-append (escape x) (encode xs));
  written =
      w.written
      ∙ ap (λ t. t ++ encode xs) v.written
      ∙ append_assoc (take s.nbytes_tot s.dst) (escape x) (encode xs);
  block_eq = w.block_eq ∙ v.block_eq;
})

encode_loop-Encodes :
    (src : List ℕ) (left : ℕ) (s : EncodeLocals)
    → s.nbytes + left ≤ length src
    → length s.dst ≡ max_buffer_size
    → s.nbytes_tot ≤ max_buffer_size
    → (s' : EncodeLocals) × (encode_loop src left s ≡ some s') × Encodes src left s s'
unfolding encode_loop
encode_loop-Encodes src zero s h block within = (
  s,
  refl,
  record {
    consumed = [];
    remaining = [];
    source_split = refl;
    wrote = Wrote-refl s;
    within = within;
    stops = inl refl;
  },
)
encode_loop-Encodes src (suc left) s h block within =
    elim (Bool-cases (ltb s.nbytes_tot (max_buffer_size - 1))) [
      | inr full ↦ (
        s,
        rw full,
        record {
          consumed = [];
          remaining = take (suc left) (drop s.nbytes src);
          source_split = refl;
          wrote = Wrote-refl s;
          within = within;
          stops = inr (ground arith);
        },
      )
      | inl room ↦
          let (x, here, there) = drop-get_elem? s.nbytes src (omega arith) in
          let fits : s.nbytes_tot + 1 < length s.dst = ground arith in
          let (t, step, w) = encode_byte-Wrote x s fits in
          let bound : t.nbytes_tot ≤ max_buffer_size =
            omega (arith, w.tot_eq, escape-le x, block) in
          let count : t.nbytes ≡ suc s.nbytes = omega (arith, w.nbytes_eq) in
          let (s', rest, r) =
            encode_loop-Encodes src left t (omega arith) (w.block_eq ∙ block) bound in
          (
            s',
            rw (room, here, step) rest,
            record {
              consumed = x ∷ r.consumed;
              remaining = r.remaining;
              source_split = rw there (ap (◌∷◌ x) (rw (← count) r.source_split));
              wrote = Wrote-cons x r.consumed w r.wrote;
              within = r.within;
              stops = r.stops;
            },
          )
    ]
