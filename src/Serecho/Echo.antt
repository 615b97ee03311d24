-- ===== src/Serecho/Echo.antt =====
-- serecho.c: what is sent back for what is received.
use cwnet.Base.{
  ℕ, zero, suc, ◌+◌, ◌≡◌, ◌≤◌, ◌<◌, refl, ap, List, [], ◌∷◌, ◌++◌, some, true, false, ◌||◌,
  Bool-cases, inl, inr, ltb, leb, ◌==◌, take, drop, length, get_elem?, arith, length-append,
  take-append, lt→ltb, length-take, length-drop,
}
use cwnet.Handler.Names.{until_nul}
use cwnet.Serecho.{Session, strncpy, strncat, prefix, zeros, on_read, start_write}

length-zeros : (n : ℕ) → length (zeros n) ≡ n
unfolding zeros
length-zeros zero = refl
length-zeros (suc n) = ap suc (length-zeros n)

take-zeros : (n m : ℕ) → n ≤ m → take n (zeros m) ≡ zeros n
unfolding zeros
take-zeros zero m h = refl
take-zeros (suc n) zero h = absurd (omega arith)
take-zeros (suc n) (suc m) h = ap (◌∷◌ 0) (take-zeros n m (omega arith))

drop-nil : {A : Type 0} (n : ℕ) (xs : List A) → length xs ≤ n → drop n xs ≡ []
drop-nil zero [] h = refl
drop-nil (suc n) [] h = refl
drop-nil zero (x ∷ xs) h = absurd (omega arith)
drop-nil (suc n) (x ∷ xs) h = drop-nil n xs (omega arith)

-- The bytes that strncat copies have no NUL among them.
until_nul-front :
    (n : ℕ) (src ys : List ℕ)
    → until_nul (take n (until_nul src) ++ 0 ∷ ys) ≡ take n (until_nul src)
unfolding until_nul
until_nul-front zero src ys = refl
until_nul-front (suc n) [] ys = refl
until_nul-front (suc n) (x ∷ src) ys = elim (Bool-cases (x == 0)) [
  | inl e ↦ rw e
  | inr e ↦ rw (e, e) (ap (◌∷◌ x) (until_nul-front n src ys))
]

length-until_nul-le : (src : List ℕ) → length (until_nul src) ≤ length src
unfolding until_nul
length-until_nul-le [] = omega arith
length-until_nul-le (x ∷ src) = ground (arith, length-until_nul-le src)

-- What is sent back for the bytes in `rxbuf`.
abbrev pub answer : List ℕ → List ℕ
answer rxbuf = prefix ++ take 249 (until_nul rxbuf)

copied_lem :
    (txbuf : List ℕ) → length txbuf ≡ 256 → strncpy txbuf prefix 256 ≡ some (prefix ++ zeros 250)
unfolding strncpy
copied_lem txbuf size =
    let inside : leb 256 (length txbuf) ≡ true = ground arith in
    rw (inside, take-zeros 250 256 (omega arith), drop-nil 256 txbuf (omega (arith, size)))

-- The array holds the answer and its NUL.
pub record Holds (txbuf rxbuf : List ℕ) : Type 0 where
  pub full : length txbuf ≡ 256
  pub text : until_nul txbuf ≡ answer rxbuf

drop_past :
    (m k : ℕ) (xs ys : List ℕ) (y : ℕ) → m ≡ length xs + k + 1 → drop m (xs ++ y ∷ ys) ≡ drop k ys
drop_past zero k xs ys y e = absurd (omega (arith, e))
drop_past (suc m) k [] ys y e = ap (λ i. drop i ys) (omega (arith, e))
drop_past (suc m) k (x ∷ xs) ys y e = drop_past m k xs ys y (omega (arith, e))

le→leb : (a b : ℕ) → a ≤ b → leb a b ≡ true
le→leb a b h = ground arith

readable_lem : (n k m : ℕ) → n < m → (leb n k || ltb k m) ≡ true
readable_lem n k m h = ground arith

filled :
    (bytes pad : List ℕ)
    → length bytes ≤ 249
    → length pad ≡ 249
    → length (prefix ++ bytes ++ 0 ∷ drop (length bytes) pad) ≡ 256
filled bytes pad short size = omega (
  arith,
  length-append bytes (0 ∷ drop (length bytes) pad),
  length-drop (length bytes) pad,
  short,
  size,
)

-- strncat behind `front`, with room for what it copies.
strncat-append :
    (front pad src : List ℕ) (n : ℕ)
    → until_nul (front ++ 0 ∷ pad) ≡ front
    → n < length src
    → n ≤ length pad
    → let bytes = take n (until_nul src) in
      strncat (front ++ 0 ∷ pad) src n ≡ some (front ++ bytes ++ 0 ∷ drop (length bytes) pad)
unfolding strncat
strncat-append front pad src n text long room =
    let bytes = take n (until_nul src) in
    let total = length-append front (0 ∷ pad) in
    let short : length bytes ≤ n = omega (arith, length-take n (until_nul src)) in
    let before : ltb (length front) (length (front ++ 0 ∷ pad)) ≡ true =
      lt→ltb _ _ (omega (arith, total)) in
    let inside : leb (length front + length bytes + 1) (length (front ++ 0 ∷ pad)) ≡ true =
      le→leb _ _ (omega (arith, total, short, room)) in
    rw (
      text,
      before,
      readable_lem n (length (until_nul src)) (length src) long,
      inside,
      take-append front (0 ∷ pad),
      drop_past (length front + length bytes + 1) (length bytes) front pad 0 refl,
    )

joined_lem :
    (rxbuf : List ℕ)
    → length rxbuf ≡ 256
    → (txbuf : List ℕ) × (strncat (prefix ++ zeros 250) rxbuf 249 ≡ some txbuf) × Holds txbuf rxbuf
unfolding until_nul zeros
joined_lem rxbuf size =
    let bytes = take 249 (until_nul rxbuf) in
    let short : length bytes ≤ 249 = omega (arith, length-take 249 (until_nul rxbuf)) in
    (
      prefix ++ bytes ++ 0 ∷ drop (length bytes) (zeros 249),
      strncat-append prefix (zeros 249) rxbuf 249 refl (omega (arith, size))
          (omega (arith, length-zeros 249)),
      record {
        full = filled bytes (zeros 249) short (length-zeros 249);
        text = ap (λ t. prefix ++ t) (until_nul-front 249 rxbuf _);
      },
    )

-- A read that is not the end of the session: its answer is written.
pub on_read_lem :
    (rxbuf : List ℕ) (s : Session) (c : ℕ)
    → length s.txbuf ≡ 256
    → length rxbuf ≡ 256
    → get_elem? rxbuf 0 ≡ some c
    → (c == b'.') ≡ false
    → (txbuf : List ℕ) × Holds txbuf rxbuf
      × (on_read rxbuf s ≡ some (start_write txbuf (record s { timer_out = false })))
unfolding on_read
on_read_lem rxbuf s c full size first more =
    let (txbuf, joined, holds) = joined_lem rxbuf size in
    (txbuf, holds, rw (first, more, copied_lem s.txbuf full, joined))

pub on_read_stop :
    (rxbuf : List ℕ) (s : Session)
    → get_elem? rxbuf 0 ≡ some b'.'
    → on_read rxbuf s ≡ some (record s { timer_out = false; running = false })
unfolding on_read
on_read_stop rxbuf s first = rw first
