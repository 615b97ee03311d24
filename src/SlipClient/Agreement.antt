-- ===== src/SlipClient/Agreement.antt =====
-- slip.c and netio.c: `copy_and_encode_data` at the size of a packet buffer is `slip_encode_buffer`.
use cwnet.Base.{
  ℕ, zero, suc, ◌+◌, ◌-◌, ◌≡◌, refl, ap, ◌∙◌, List, [], ◌∷◌, Option, none, some, inl, inr, ltb,
  ◌==◌, if◌then◌else◌, ◌>>=◌, arith, Bool-cases, Option-cases, ℤ, pos, negsuc, drop, get_elem?,
  store, drop-eq-cons, >>=-eq-some, some-eq,
}
use cwnet.Slip.{
  Buffer, Coded, EncodeLocals, encode_byte, encode_loop, encode_result, slip_encode_buffer,
  put_pair, put_one, max_buffer_size, slip_end, slip_esc, slip_escaped_end, slip_escaped_esc,
}
use cwnet.SlipClient.{
  CopyLocals, copy_escaped, copy_plain, copy_byte, advance, copy_loop, copy_and_encode_data,
}

-- The variables of the one function as those of the other.
abbrev same : EncodeLocals → CopyLocals
same t = record { nbytes = t.nbytes; nbytes_tot = t.nbytes_tot; at = t.nbytes_tot; buffer = t.dst }

abbrev also : Option EncodeLocals → Option CopyLocals
also o = o >>= λ t. some (same t)

abbrev step : Option CopyLocals → Option CopyLocals
step o = o >>= λ w. some (advance w)

escaped-put_pair :
    (code : ℕ) (t : EncodeLocals)
    → step (copy_escaped code (same t)) ≡ also (put_pair t slip_esc code)
unfolding copy_escaped put_pair advance
escaped-put_pair code t =
    let e : t.nbytes_tot + 1 + 1 ≡ t.nbytes_tot + 2 = omega arith in
    elim (Option-cases (store t.dst t.nbytes_tot slip_esc)) [
      | inl missing ↦ rw missing
      | inr (first, f) ↦ elim (Option-cases (store first (t.nbytes_tot + 1) code)) [
        | inl missing ↦ rw (f, missing)
        | inr (both, g) ↦ rw (f, g, e)
      ]
    ]

plain-put_one : (x : ℕ) (t : EncodeLocals) → step (copy_plain x (same t)) ≡ also (put_one t x)
unfolding copy_plain put_one advance
plain-put_one x t = elim (Option-cases (store t.dst t.nbytes_tot x)) [
  | inl missing ↦ rw missing
  | inr (one, f) ↦ rw f
]

copy_byte-encode_byte :
    (x : ℕ) (t : EncodeLocals) → step (copy_byte x (same t)) ≡ also (encode_byte x t)
unfolding copy_byte encode_byte
copy_byte-encode_byte x t = elim (Bool-cases (x == slip_end)) [
  | inl e ↦ rw e (escaped-put_pair slip_escaped_end t)
  | inr e ↦ elim (Bool-cases (x == slip_esc)) [
    | inl f ↦ rw (e, f) (escaped-put_pair slip_escaped_esc t)
    | inr f ↦ rw (e, f) (plain-put_one x t)
  ]
]

-- `encode_byte` is done with one byte of the source.
put_pair_nbytes : (a b : ℕ) (t u : EncodeLocals) → put_pair t a b ≡ some u → u.nbytes ≡ suc t.nbytes
unfolding put_pair
put_pair_nbytes a b t u h =
    let (first, e, h') = >>=-eq-some (store t.dst t.nbytes_tot a) _ h in
    let (both, e', h'') = >>=-eq-some (store first (t.nbytes_tot + 1) b) _ h' in
    omega (arith, ap (λ w. w.nbytes) (some-eq h''))

put_one_nbytes : (a : ℕ) (t u : EncodeLocals) → put_one t a ≡ some u → u.nbytes ≡ suc t.nbytes
unfolding put_one
put_one_nbytes a t u h =
    let (one, e, h') = >>=-eq-some (store t.dst t.nbytes_tot a) _ h in
    omega (arith, ap (λ w. w.nbytes) (some-eq h'))

encode_byte_nbytes :
    (x : ℕ) (t u : EncodeLocals) → encode_byte x t ≡ some u → u.nbytes ≡ suc t.nbytes
unfolding encode_byte
encode_byte_nbytes x t u = elim (Bool-cases (x == slip_end)) [
  | inl e ↦ rw e (put_pair_nbytes slip_esc slip_escaped_end t u)
  | inr e ↦ elim (Bool-cases (x == slip_esc)) [
    | inl f ↦ rw (e, f) (put_pair_nbytes slip_esc slip_escaped_esc t u)
    | inr f ↦ rw (e, f) (put_one_nbytes x t u)
  ]
]

step_bind :
    (o : Option CopyLocals) (k : CopyLocals → Option CopyLocals)
    → (o >>= λ w. k (advance w)) ≡ (step o >>= k)
step_bind none k = refl
step_bind (some w) k = refl

also_bind :
    (o : Option EncodeLocals) (k : EncodeLocals → Option EncodeLocals)
    (j : CopyLocals → Option CopyLocals)
    → ((u : EncodeLocals) → o ≡ some u → j (same u) ≡ also (k u))
    → (also o >>= j) ≡ also (o >>= k)
also_bind none k j h = refl
also_bind (some u) k j h = h u refl

-- The rest of the source, from the index of the next byte.
abbrev Rest : List ℕ → EncodeLocals → List ℕ → Type 0
Rest block t src = drop t.nbytes block ≡ src

get_elem?-drop_nil : (n : ℕ) (block : List ℕ) → drop n block ≡ [] → get_elem? block n ≡ none
get_elem?-drop_nil n [] h = refl
get_elem?-drop_nil zero (x ∷ xs) h = cc h
get_elem?-drop_nil (suc n) (x ∷ xs) h = get_elem?-drop_nil n xs h

loops-same :
    (block : List ℕ) (left : ℕ) (src : List ℕ) (t : EncodeLocals)
    → Rest block t src
    → copy_loop max_buffer_size left src (same t) ≡ also (encode_loop block left t)
unfolding copy_loop encode_loop
loops-same block zero src t h = refl
loops-same block (suc left) [] t h = elim (Bool-cases (ltb t.nbytes_tot (max_buffer_size - 1))) [
  | inl e ↦ rw (e, get_elem?-drop_nil t.nbytes block h)
  | inr e ↦ rw e
]
loops-same block (suc left) (x ∷ src) t h =
    elim (Bool-cases (ltb t.nbytes_tot (max_buffer_size - 1))) [
      | inl e ↦
          let (here, rest) = drop-eq-cons t.nbytes block h in
          rw (e, here)
            (step_bind (copy_byte x (same t)) (copy_loop max_buffer_size left src)
              ∙ ap (λ o. o >>= copy_loop max_buffer_size left src) (copy_byte-encode_byte x t)
              ∙ also_bind (encode_byte x t) (encode_loop block left)
                  (copy_loop max_buffer_size left src)
                  (λ u f.
                    loops-same block left src u
                      (ap (λ n. drop n block) (encode_byte_nbytes x t u f) ∙ rest)))
      | inr e ↦ rw e
    ]

-- The return value and the buffer of the one function, from the result of the other.
abbrev pub as_copy : Coded → ℤ × List ℕ
as_copy r = (if r.success then pos r.dbuf.b_size else negsuc 0, r.dbuf.b_addr)

results-same :
    (dbuf sbuf : Buffer) (o : Option EncodeLocals)
    → (also o >>= λ s.
        some (if ltb s.nbytes sbuf.b_size then negsuc 0 else pos s.nbytes_tot, s.buffer))
      ≡ ((o >>= λ t. some (encode_result sbuf t)) >>= λ r. some (as_copy r))
unfolding encode_result
results-same dbuf sbuf none = refl
results-same dbuf sbuf (some t) = elim (Bool-cases (ltb t.nbytes sbuf.b_size)) [
  | inl e ↦ rw e
  | inr e ↦ rw e
]

-- At the start of a packet buffer and with its size for `buflen`, the copy of the coder in slip.c
-- does what `slip_encode_buffer` of netio.c does, for any source and any destination: it returns
-- the size of the coding where that succeeds and -1 where it fails, leaves the same bytes, and goes
-- outside a block in the same cases.
pub copy_and_encode_data-slip_encode_buffer :
    (dbuf sbuf : Buffer)
    → copy_and_encode_data dbuf.b_addr 0 sbuf.b_addr max_buffer_size sbuf.b_size
      ≡ (slip_encode_buffer dbuf sbuf >>= λ r. some (as_copy r))
unfolding copy_and_encode_data slip_encode_buffer
copy_and_encode_data-slip_encode_buffer dbuf sbuf =
    let t : EncodeLocals = record { nbytes = 0; nbytes_tot = 0; dst = dbuf.b_addr } in
    ap
      (λ o. o >>= λ (s : CopyLocals).
        some (if ltb s.nbytes sbuf.b_size then negsuc 0 else pos s.nbytes_tot, s.buffer))
      (loops-same sbuf.b_addr sbuf.b_size sbuf.b_addr t refl)
    ∙ results-same dbuf sbuf (encode_loop sbuf.b_addr sbuf.b_size t)
