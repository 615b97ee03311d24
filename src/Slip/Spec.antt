-- ===== src/Slip/Spec.antt =====
-- The SLIP coding of a packet (RFC 1055) as a function on byte strings, for comparison.
use cwnet.Base.{
  ℕ, ◌+◌, ◌≡◌, ◌≤◌, refl, List, [], ◌∷◌, ◌++◌, if◌then◌else◌, ◌==◌, length, Bool-cases, ◌⊎◌, inl,
  inr, arith, append_assoc, ap, ◌≢◌, All, sym, ◌∙◌,
}
use cwnet.Slip.{slip_end, slip_escaped_end, slip_esc, slip_escaped_esc}

abbrev pub escape : ℕ → List ℕ
escape x =
    if x == slip_end
    then slip_esc ∷ slip_escaped_end ∷ []
    else if x == slip_esc
    then slip_esc ∷ slip_escaped_esc ∷ []
    else x ∷ []

pub encode : List ℕ → List ℕ
encode [] = []
encode (x ∷ xs) = escape x ++ encode xs

pub encode-nil : encode [] ≡ []
unfolding encode
encode-nil = refl

pub encode-cons : (x : ℕ) (xs : List ℕ) → encode (x ∷ xs) ≡ escape x ++ encode xs
unfolding encode
encode-cons x xs = refl

pub encode-append : (xs ys : List ℕ) → encode (xs ++ ys) ≡ encode xs ++ encode ys
unfolding encode
encode-append [] ys = refl
encode-append (x ∷ xs) ys =
    ap (◌++◌ (escape x)) (encode-append xs ys)
    ∙ sym (append_assoc (escape x) (encode xs) (encode ys))

-- A byte that SLIP does not escape.
abbrev pub IsPlain : ℕ → Type 0
IsPlain x = (x ≢ slip_end) × (x ≢ slip_esc)

pub encode_plain : (xs : List ℕ) → All IsPlain xs → encode xs ≡ xs
unfolding encode
encode_plain [] h = refl
encode_plain (x ∷ xs) h = ground (arith, encode_plain xs h.1)

pub length-encode-le : (xs : List ℕ) → length xs ≤ length (encode xs)
unfolding encode
length-encode-le [] = omega arith
length-encode-le (x ∷ xs) = ground (arith, length-encode-le xs)

pub length-encode-le_double : (xs : List ℕ) → length (encode xs) ≤ length xs + length xs
unfolding encode
length-encode-le_double [] = omega arith
length-encode-le_double (x ∷ xs) = ground (arith, length-encode-le_double xs)

-- `v` is what the second byte `y` of an escape sequence stands for.
abbrev pub IsEscape : ℕ → ℕ → Type 0
IsEscape y v = ((y ≡ slip_escaped_end) × (v ≡ slip_end)) ⊎ ((y ≡ slip_escaped_esc) × (v ≡ slip_esc))

-- A receiver reads the bytes `c` of a frame as the bytes `d`.
pub data Codes : List ℕ → List ℕ → Type 0 where
  stop : Codes [] []
  plain : (x : ℕ) (c d : List ℕ) → x ≢ slip_esc → Codes c d → Codes (x ∷ c) (x ∷ d)
  pair : (y v : ℕ) (c d : List ℕ) → IsEscape y v → Codes c d → Codes (slip_esc ∷ y ∷ c) (v ∷ d)

Codes-escape : (x : ℕ) (c d : List ℕ) → Codes c d → Codes (escape x ++ c) (x ∷ d)
Codes-escape x c d h = elim (Bool-cases (x == slip_end)) [
  | inl e ↦ rw e (pair slip_escaped_end x c d (ground arith) h)
  | inr e ↦ elim (Bool-cases (x == slip_esc)) [
    | inl f ↦ rw (e, f) (pair slip_escaped_esc x c d (ground arith) h)
    | inr f ↦ rw (e, f) (plain x c d (ground arith) h)
  ]
]

-- The coding of a packet, with more behind it that is read as `d`.
pub encode-Codes : (xs : List ℕ) {c d : List ℕ} → Codes c d → Codes (encode xs ++ c) (xs ++ d)
unfolding encode
encode-Codes [] h = h
encode-Codes (x ∷ xs) {c} {d} h =
    rw (append_assoc (escape x) (encode xs) c)
      (Codes-escape x (encode xs ++ c) (xs ++ d) (encode-Codes xs h))

-- A sequence of escapes makes the coding longer than what it stands for.
pub Codes-length : {c d : List ℕ} → Codes c d → length d ≤ length c
Codes-length stop = omega arith
Codes-length (plain x c d p h) = omega (arith, Codes-length h)
Codes-length (pair y v c d p h) = omega (arith, Codes-length h)
