-- ===== src/Slip/Decode.antt =====
-- `slip_decode_buffer`: what it leaves of a coded packet.
pub mod Whole
use cwnet.Base.{
  ℕ, zero, suc, ◌+◌, ◌-◌, ◌≡◌, ◌≢◌, ◌≤◌, ◌<◌, refl, List, [], ◌∷◌, ◌++◌, Option, none, some, true,
  false, inl, inr, ltb, ◌==◌, length, take, drop, set, arith, append_assoc, append-nil, ap, sym,
  ◌∙◌, le→ltb, store-some, length-set, take-set, drop-eq-cons, Bool-cases, ◌>>=◌, get_elem?,
  length-append, min, take-set_below, take_shorter, >>=-eq-some, get_elem?-length-le,
}
use cwnet.Slip.{
  Buffer, Coded, DecodeLocals, unescape, put_decoded, put_unescaped, decode_loop, decode_result,
  slip_decode_buffer, max_buffer_size, slip_esc, error_buffer_overflow,
}
use cwnet.Slip.Spec.{Codes, stop, plain, pair, IsEscape, Codes-length}
use cwnet.Slip.Encode.Whole.{contents, IsBlock}

-- The state after the bytes `d` were decoded from the bytes `c`.
pub record Decoded (s s' : DecodeLocals) (c d : List ℕ) : Type 0 where
  pub nbytes_eq : s'.nbytes ≡ s.nbytes + length d
  pub from_eq : s'.from ≡ s.from + length c
  pub written : take s'.nbytes s'.dst ≡ take s.nbytes s.dst ++ d
  pub block_eq : length s'.dst ≡ length s.dst
  pub errno_eq : s'.errno ≡ s.errno

put_decoded-Decoded :
    (s : DecodeLocals) (v width : ℕ) (c : List ℕ)
    → s.nbytes < length s.dst
    → width ≡ length c
    → (s' : DecodeLocals) × (put_decoded s v width ≡ some s') × Decoded s s' c (v ∷ [])
unfolding put_decoded
put_decoded-Decoded s v width c h e = (
  record s { nbytes = s.nbytes + 1; from = s.from + width; dst = set s.dst s.nbytes v },
  rw (store-some s.dst s.nbytes v h),
  record {
    nbytes_eq = refl;
    from_eq = rw e;
    written =
        let e' : s.nbytes + 1 ≡ suc s.nbytes = omega arith in rw e' (take-set s.nbytes s.dst v h);
    block_eq = rw length-set;
    errno_eq = refl;
  },
)

unescape-IsEscape : (y v : ℕ) → IsEscape y v → unescape y ≡ some v
unfolding unescape
unescape-IsEscape y v h = ground arith

-- One round reads the coding `c` of one byte `x`.
abbrev RoundReads : List ℕ → List ℕ → ℕ → List ℕ → ℕ → DecodeLocals → Type 0
RoundReads src rest left c x s =
    (s' : DecodeLocals) × (decode_loop src (suc left) s ≡ decode_loop src left s')
    × Decoded s s' c (x ∷ [])
    × (drop s'.from src ≡ rest)

module _ (src rest : List ℕ) (left x : ℕ) (s : DecodeLocals) (room : s.nbytes < length s.dst) where
  round_pair :
      (y : ℕ)
      → drop s.from src ≡ slip_esc ∷ y ∷ rest
      → IsEscape y x
      → RoundReads src rest left (slip_esc ∷ y ∷ []) x s
  unfolding decode_loop
  round_pair y h u =
      let (first, h₁) = drop-eq-cons s.from src h in
      let (second, h₂) = drop-eq-cons (suc s.from) src h₁ in
      let e : s.from + 1 ≡ suc s.from = omega arith in
      let v = unescape-IsEscape y x u in
      let (s', put, d) = put_decoded-Decoded s x 2 (slip_esc ∷ y ∷ []) room refl in
      let f : s'.from ≡ suc (suc s.from) = omega (arith, d.from_eq) in
      (s', rw (first, e, second, v, put), d, rw f h₂)

  round_plain : drop s.from src ≡ x ∷ rest → x ≢ slip_esc → RoundReads src rest left (x ∷ []) x s
  unfolding decode_loop
  round_plain h other =
      let (first, h₁) = drop-eq-cons s.from src h in
      let p : (x == slip_esc) ≡ false = ground arith in
      let (s', put, d) = put_decoded-Decoded s x 1 (x ∷ []) room refl in
      let f : s'.from ≡ suc s.from = omega (arith, d.from_eq) in
      (s', rw (first, p, put), d, rw f h₁)

Decoded-trans :
    {s s' s'' : DecodeLocals} (c c' d d' : List ℕ)
    → Decoded s s' c d
    → Decoded s' s'' c' d'
    → Decoded s s'' (c ++ c') (d ++ d')
Decoded-trans {s} c c' d d' v w = record {
  nbytes_eq = omega (arith, v.nbytes_eq, w.nbytes_eq, length-append d d');
  from_eq = omega (arith, v.from_eq, w.from_eq, length-append c c');
  written = w.written ∙ ap (λ t. t ++ d') v.written ∙ append_assoc (take s.nbytes s.dst) d d';
  block_eq = w.block_eq ∙ v.block_eq;
  errno_eq = w.errno_eq ∙ v.errno_eq;
}

-- The rounds that read the coding `c` of the bytes `d`.
decode_loop-Codes :
    (src rest : List ℕ) (left rounds : ℕ) (s : DecodeLocals) {c d : List ℕ}
    → Codes c d
    → drop s.from src ≡ c ++ rest
    → rounds ≡ length d + left
    → s.nbytes + length d ≤ length s.dst
    → (s' : DecodeLocals) × (decode_loop src rounds s ≡ decode_loop src left s') × Decoded s s' c d
decode_loop-Codes src rest left rounds s stop h e room =
    let e' : rounds ≡ left = omega arith in
    (
      s,
      rw e',
      record {
        nbytes_eq = omega arith;
        from_eq = omega arith;
        written = sym (append-nil (take s.nbytes s.dst));
        block_eq = refl;
        errno_eq = refl;
      },
    )
decode_loop-Codes src rest left rounds s (plain x c d other more) h e room =
    let e' : rounds ≡ suc (length d + left) = omega arith in
    let (t, first, v, h') =
      round_plain src (c ++ rest) (length d + left) x s (omega arith) h other in
    let (s', then_, w) =
      decode_loop-Codes src rest left (length d + left) t more h' refl
        (omega (arith, v.nbytes_eq, v.block_eq)) in
    (
      s',
      ap (λ n. decode_loop src n s) e' ∙ (first ∙ then_),
      Decoded-trans (x ∷ []) c (x ∷ []) d v w,
    )
decode_loop-Codes src rest left rounds s (pair y x c d esc more) h e room =
    let e' : rounds ≡ suc (length d + left) = omega arith in
    let (t, first, v, h') =
      round_pair src (c ++ rest) (length d + left) x s (omega arith) y h esc in
    let (s', then_, w) =
      decode_loop-Codes src rest left (length d + left) t more h' refl
        (omega (arith, v.nbytes_eq, v.block_eq)) in
    (
      s',
      ap (λ n. decode_loop src n s) e' ∙ (first ∙ then_),
      Decoded-trans (slip_esc ∷ y ∷ []) c (x ∷ []) d v w,
    )

-- Whatever the loop reads next, it leaves the bytes that it has decoded, and it decodes at most
-- one byte in a round.
pub record Extends (rounds : ℕ) (s r : DecodeLocals) : Type 0 where
  pub kept : take s.nbytes r.dst ≡ take s.nbytes s.dst
  pub grows : s.nbytes ≤ r.nbytes
  pub bounded : r.nbytes ≤ s.nbytes + rounds
  pub block_eq : length r.dst ≡ length s.dst

put_decoded-Extends :
    (s : DecodeLocals) (v width : ℕ) {r : DecodeLocals}
    → put_decoded s v width ≡ some r
    → Extends 1 s r
unfolding put_decoded
put_decoded-Extends s v width h =
    ground (arith, take-set_below s.nbytes s.nbytes s.dst v, length-set s.dst s.nbytes v)

Extends-trans :
    (rounds : ℕ) {s t r : DecodeLocals}
    → Extends 1 s t
    → Extends rounds t r
    → Extends (suc rounds) s r
Extends-trans rounds {s} {t} {r} v w = record {
  kept = take_shorter s.nbytes t.nbytes r.dst t.dst v.grows w.kept ∙ v.kept;
  grows = omega arith;
  bounded = omega arith;
  block_eq = w.block_eq ∙ v.block_eq;
}

put_unescaped-Extends :
    (rounds : ℕ) (s : DecodeLocals) (o : Option ℕ) (k : DecodeLocals → Option DecodeLocals)
    {r : DecodeLocals}
    → ((t : DecodeLocals) → k t ≡ some r → Extends rounds t r)
    → put_unescaped s o k ≡ some r
    → Extends (suc rounds) s r
unfolding put_unescaped
put_unescaped-Extends rounds s none k next h = ground arith
put_unescaped-Extends rounds s (some v) k next h =
    let (t, put, h₁) = >>=-eq-some (put_decoded s v 2) k h in
    Extends-trans rounds (put_decoded-Extends s v 2 put) (next t h₁)

decode_loop-Extends :
    (src : List ℕ) (rounds : ℕ) (s : DecodeLocals) {r : DecodeLocals}
    → decode_loop src rounds s ≡ some r
    → Extends rounds s r
unfolding decode_loop
decode_loop-Extends src zero s h = ground arith
decode_loop-Extends src (suc rounds) s {r} h =
    let (x, e, h₁) = >>=-eq-some (get_elem? src s.from) _ h in
    elim (Bool-cases (x == slip_esc)) [
      | inl esc ↦
          let (y, e', h₂) = >>=-eq-some (get_elem? src (s.from + 1)) _ (rw esc at h₁) in
          put_unescaped-Extends rounds s (unescape y) (decode_loop src rounds)
            (λ t q. decode_loop-Extends src rounds t q) h₂
      | inr other ↦
          let (t, put, h₂) =
            >>=-eq-some (put_decoded s x 1) (decode_loop src rounds) (rw other at h₁) in
          Extends-trans rounds (put_decoded-Extends s x 1 put) (decode_loop-Extends src rounds t h₂)
    ]

-- The loop at the end of the source's block.
decode_loop-fault :
    (src : List ℕ) (rounds : ℕ) (s : DecodeLocals)
    → 0 < rounds
    → length src ≤ s.from
    → decode_loop src rounds s ≡ none
unfolding decode_loop
decode_loop-fault src zero s pos h = absurd (omega arith)
decode_loop-fault src (suc rounds) s pos h = rw (get_elem?-length-le s.from src h)
