-- ===== src/SlipClient/Copy.antt =====
-- slip.c: `copy_and_encode_data` against the coding of the specification.
use cwnet.Base.{
  ℕ, suc, ◌+◌, ◌-◌, ◌≡◌, ◌≤◌, ◌<◌, refl, ap, ap₂, sym, subst, ◌∙◌, List, [], ◌∷◌, ◌++◌, some, true,
  false, ◌⊎◌, inl, inr, ltb, ◌==◌, length, take, set, arith, append_assoc, append-nil, lt→ltb,
  le→ltb, ltb→lt, ltb→le, store-some, length-set, take-set, Bool-cases, length-append, pos, negsuc,
}
use cwnet.Slip.{slip_end, slip_esc, slip_escaped_end, slip_escaped_esc}
use cwnet.Slip.Spec.{escape, encode, encode-nil, encode-cons}
use cwnet.SlipClient.{
  CopyLocals, copy_escaped, copy_plain, copy_byte, advance, copy_loop, copy_and_encode_data,
}

-- `s'` is `s` after `taken` bytes of the data were written as `bs`.
record Copied (s s' : CopyLocals) (taken : ℕ) (bs : List ℕ) : Type 0 where
  nbytes_eq : s'.nbytes ≡ s.nbytes + taken
  tot_eq : s'.nbytes_tot ≡ s.nbytes_tot + length bs
  at_eq : s'.at ≡ s.at + length bs
  written : take s'.at s'.buffer ≡ take s.at s.buffer ++ bs
  size_eq : length s'.buffer ≡ length s.buffer

take-set_both :
    (n k : ℕ) (xs : List ℕ) (a b : ℕ)
    → n + 1 < length xs
    → k ≡ n + 2
    → take k (set (set xs n a) (n + 1) b) ≡ take n xs ++ a ∷ b ∷ []
take-set_both n k xs a b h size =
    let e : k ≡ suc (suc n) = omega arith in
    let e' : n + 1 ≡ suc n = omega arith in
    rw
      (
        e,
        e',
        take-set (suc n) (set xs n a) b (rw length-set (omega arith)),
        take-set n xs a (omega arith),
      )
      (append_assoc (take n xs) (a ∷ []) (b ∷ []))

escaped-Copied :
    (code : ℕ) (s : CopyLocals)
    → s.at + 1 < length s.buffer
    → (w : CopyLocals) × (copy_escaped code s ≡ some w)
      × Copied s (advance w) 1 (slip_esc ∷ code ∷ [])
unfolding copy_escaped advance
escaped-Copied code s h = (
  record s {
    nbytes_tot = s.nbytes_tot + 1;
    at = s.at + 1;
    buffer = set (set s.buffer s.at slip_esc) (s.at + 1) code;
  },
  rw (
    store-some s.buffer s.at slip_esc (omega arith),
    store-some (set s.buffer s.at slip_esc) (s.at + 1) code (rw length-set h),
  ),
  record {
    nbytes_eq = refl;
    tot_eq = omega arith;
    at_eq = omega arith;
    written = take-set_both s.at (s.at + 1 + 1) s.buffer slip_esc code h (omega arith);
    size_eq = rw (length-set, length-set);
  },
)

plain-Copied :
    (x : ℕ) (s : CopyLocals)
    → s.at < length s.buffer
    → (w : CopyLocals) × (copy_plain x s ≡ some w) × Copied s (advance w) 1 (x ∷ [])
unfolding copy_plain advance
plain-Copied x s h = (
  record s { buffer = set s.buffer s.at x },
  rw (store-some s.buffer s.at x h),
  record {
    nbytes_eq = refl;
    tot_eq = omega arith;
    at_eq = omega arith;
    written = let e : s.at + 1 ≡ suc s.at = omega arith in rw e (take-set s.at s.buffer x h);
    size_eq = rw length-set;
  },
)

byte-Copied :
    (x : ℕ) (s : CopyLocals)
    → s.at + 1 < length s.buffer
    → (w : CopyLocals) × (copy_byte x s ≡ some w) × Copied s (advance w) 1 (escape x)
unfolding copy_byte
byte-Copied x s h = elim (Bool-cases (x == slip_end)) [
  | inl e ↦ rw e (escaped-Copied slip_escaped_end s h)
  | inr e ↦ elim (Bool-cases (x == slip_esc)) [
    | inl f ↦ rw (e, f) (escaped-Copied slip_escaped_esc s h)
    | inr f ↦ rw (e, f) (plain-Copied x s (omega arith))
  ]
]

Copied-append :
    (s s₁ s₂ : CopyLocals) (n m : ℕ) (bs cs : List ℕ)
    → Copied s s₁ n bs
    → Copied s₁ s₂ m cs
    → Copied s s₂ (n + m) (bs ++ cs)
Copied-append s s₁ s₂ n m bs cs a b = record {
  nbytes_eq = omega (arith, a.nbytes_eq, b.nbytes_eq);
  tot_eq = omega (arith, a.tot_eq, b.tot_eq, length-append bs cs);
  at_eq = omega (arith, a.at_eq, b.at_eq, length-append bs cs);
  written = b.written ∙ ap (λ t. t ++ cs) a.written ∙ append_assoc (take s.at s.buffer) bs cs;
  size_eq = b.size_eq ∙ a.size_eq;
}

length-escape : (x : ℕ) → (1 ≤ length (escape x)) × (length (escape x) ≤ 2)
length-escape x = ground arith

length-encode_cons :
    (x : ℕ) (xs : List ℕ) → length (encode (x ∷ xs)) ≡ length (escape x) + length (encode xs)
length-encode_cons x xs =
    omega (arith, ap length (encode-cons x xs), length-append (escape x) (encode xs))

-- The part of the buffer that the call may write to.
abbrev HasRoom : ℕ → CopyLocals → Type 0
HasRoom buflen s = (s.nbytes_tot ≤ buflen) × (s.at + buflen ≤ length s.buffer + s.nbytes_tot)

-- How the loop ends: with all the data copied, or because their coding takes `buflen` bytes or more.
CopyEnd : ℕ → List ℕ → CopyLocals → CopyLocals → Type 0
CopyEnd buflen xs s s' =
    Copied s s' (length xs) (encode xs)
    ⊎ ((s'.nbytes < s.nbytes + length xs)
        × (buflen ≤ s.nbytes_tot + length (encode xs))
        × (length s'.buffer ≡ length s.buffer))

CopyEnd-cons :
    (buflen x : ℕ) (xs : List ℕ) (s s₁ s₂ : CopyLocals)
    → Copied s s₁ 1 (escape x)
    → CopyEnd buflen xs s₁ s₂
    → CopyEnd buflen (x ∷ xs) s s₂
unfolding CopyEnd
CopyEnd-cons buflen x xs s s₁ s₂ a (inl b) =
    let e : 1 + length xs ≡ suc (length xs) = omega arith in
    inl (
      subst (λ bs. Copied s s₂ (suc (length xs)) bs) (sym (encode-cons x xs))
        (subst (λ k. Copied s s₂ k (escape x ++ encode xs)) e
          (Copied-append s s₁ s₂ 1 (length xs) (escape x) (encode xs) a b)))
CopyEnd-cons buflen x xs s s₁ s₂ a (inr b) = inr (
  omega (arith, a.nbytes_eq, b),
  omega (arith, a.tot_eq, b, length-encode_cons x xs),
  b.2 ∙ a.size_eq,
)

loop-CopyEnd :
    (buflen : ℕ) (xs : List ℕ) (s : CopyLocals)
    → HasRoom buflen s
    → (s' : CopyLocals) × (copy_loop buflen (length xs) xs s ≡ some s') × CopyEnd buflen xs s s'
unfolding copy_loop CopyEnd
loop-CopyEnd buflen [] s room = (
  s,
  refl,
  inl (record {
    nbytes_eq = omega arith;
    tot_eq = omega (arith, ap length encode-nil);
    at_eq = omega (arith, ap length encode-nil);
    written = sym (ap (◌++◌ (take s.at s.buffer)) encode-nil ∙ append-nil (take s.at s.buffer));
    size_eq = refl;
  }),
)
loop-CopyEnd buflen (x ∷ xs) s room = elim (Bool-cases (ltb s.nbytes_tot (buflen - 1))) [
  | inl e ↦
      let free = ltb→lt _ _ e in
      let (w, run, a) = byte-Copied x s (omega (arith, free)) in
      let room' : HasRoom buflen (advance w) = (
        omega (arith, a.tot_eq, length-escape x, free),
        omega (arith, a.tot_eq, a.at_eq, a.size_eq),
      ) in
      let (s', rest, end) = loop-CopyEnd buflen xs (advance w) room' in
      (s', rw (e, run) rest, CopyEnd-cons buflen x xs s (advance w) s' a end)
  | inr e ↦
      let full = ltb→le _ _ e in
      (
        s,
        rw e,
        inr (omega arith, omega (arith, full, length-encode_cons x xs, length-escape x), refl),
      )
]

-- What a call of `copy_and_encode_data` for all the `bytes` returns and leaves in the buffer: their
-- coding behind what was before its part, with its length, or -1 for a coding of `buflen` bytes or
-- more.
abbrev pub Result : List ℕ → ℕ → List ℕ → ℕ → List ℕ → Type 0
Result buffer at bytes buflen out =
    ((copy_and_encode_data buffer at bytes buflen (length bytes)
        ≡ some (pos (length (encode bytes)), out))
      × (take (at + length (encode bytes)) out ≡ take at buffer ++ encode bytes))
    ⊎ ((copy_and_encode_data buffer at bytes buflen (length bytes) ≡ some (negsuc 0, out))
        × (buflen ≤ length (encode bytes)))

end-Result :
    (buffer : List ℕ) (at : ℕ) (bytes : List ℕ) (buflen : ℕ) (s₀ s : CopyLocals)
    → s₀ ≡ record { nbytes = 0; nbytes_tot = 0; at = at; buffer = buffer }
    → copy_loop buflen (length bytes) bytes s₀ ≡ some s
    → CopyEnd buflen bytes s₀ s
    → (length s.buffer ≡ length buffer) × Result buffer at bytes buflen s.buffer
unfolding copy_and_encode_data CopyEnd
end-Result buffer at bytes buflen s₀ s start run (inl a) =
    let n = ap (λ l. l.nbytes) start in
    let tot = ap (λ l. l.nbytes_tot) start in
    let here = ap (λ l. l.at) start in
    let block = ap (λ l. l.buffer) start in
    let all : ltb s.nbytes (length bytes) ≡ false = le→ltb _ _ (omega (arith, a.nbytes_eq, n)) in
    let size : s.nbytes_tot ≡ length (encode bytes) = omega (arith, a.tot_eq, tot) in
    let place : s.at ≡ at + length (encode bytes) = omega (arith, a.at_eq, here) in
    (
      a.size_eq ∙ ap length block,
      inl (
        rw (← start) (rw (run, all) (ap (λ k. some (pos k, s.buffer)) size)),
        ap (λ k. take k s.buffer) (sym place)
            ∙ a.written
            ∙ ap₂ (λ k b. take k b ++ encode bytes) here block,
      ),
    )
end-Result buffer at bytes buflen s₀ s start run (inr c) =
    let n = ap (λ l. l.nbytes) start in
    let tot = ap (λ l. l.nbytes_tot) start in
    let cut : ltb s.nbytes (length bytes) ≡ true = lt→ltb _ _ (omega (arith, c.0, n)) in
    (
      c.2 ∙ ap (λ l. length l.buffer) start,
      inr (rw (← start) (rw (run, cut)), omega (arith, c.1, tot)),
    )

-- With all of its part inside the buffer, `copy_and_encode_data` accesses nothing outside it. It
-- leaves the coding of the data behind what was before its part and returns its length, or it
-- returns -1, and then the coding takes `buflen` bytes or more.
pub copy_and_encode_data-Result :
    (buffer : List ℕ) (at : ℕ) (bytes : List ℕ) (buflen : ℕ)
    → at + buflen ≤ length buffer
    → (out : List ℕ) × (length out ≡ length buffer) × Result buffer at bytes buflen out
copy_and_encode_data-Result buffer at bytes buflen inside =
    let s₀ : CopyLocals = record { nbytes = 0; nbytes_tot = 0; at = at; buffer = buffer } in
    let (s, run, end) = loop-CopyEnd buflen bytes s₀ (omega arith, omega arith) in
    let (size, r) = end-Result buffer at bytes buflen s₀ s refl run end in (s.buffer, size, r)
