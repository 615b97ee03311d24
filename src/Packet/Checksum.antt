-- ===== src/Packet/Checksum.antt =====
-- The checksum of the Internet protocols: a header that carries it sums up to zero.
use cwnet.Base.{
  ℕ, suc, ◌+◌, ◌-◌, ◌*◌, ◌/◌, ◌%◌, ◌^◌, ◌<◌, ◌≡◌, refl, ap, ◌∙◌, List, [], ◌∷◌, ◌++◌, arith, some,
  All, drop, drop-eq-cons,
}
use cwnet.Packet.{
  ByteOrder, big_endian, little_endian, bytes16, word16, load16, sum_words, fold_sum, calc_checksum,
  u32,
}

abbrev pub IsWord : ℕ → Type 0
IsWord w = w < 2 ^ 16

abbrev pub memory_words : ByteOrder → List ℕ → List ℕ
memory_words order [] = []
memory_words order (w ∷ ws) = bytes16 order w ++ memory_words order ws

abbrev pub total : List ℕ → ℕ
total [] = 0
total (w ∷ ws) = w + total ws

abbrev pub twice_length : List ℕ → ℕ
twice_length [] = 0
twice_length (w ∷ ws) = suc (suc (twice_length ws))

load16-bytes16 :
    (order : ByteOrder) (block : List ℕ) (p w : ℕ) (rest : List ℕ)
    → IsWord w
    → drop p block ≡ bytes16 order w ++ rest
    → (load16 order block p ≡ some w) × (drop (suc (suc p)) block ≡ rest)
unfolding bytes16 word16
load16-bytes16 big_endian block p w rest h e =
    let (a, e₁) = drop-eq-cons p block e in
    let (b, e₂) = drop-eq-cons (suc p) block e₁ in
    let s : p + 1 ≡ suc p = omega arith in
    let v : w / 256 * 256 + w % 256 ≡ w = omega arith in (rw (a, s, b, v), e₂)
load16-bytes16 little_endian block p w rest h e =
    let (a, e₁) = drop-eq-cons p block e in
    let (b, e₂) = drop-eq-cons (suc p) block e₁ in
    let s : p + 1 ≡ suc p = omega arith in
    let v : w % 256 + w / 256 * 256 ≡ w = omega arith in (rw (a, s, b, v), e₂)

-- The loop adds up the words, as long as the sum fits 32 bits.
sum_words_lem :
    (order : ByteOrder) (block : List ℕ) (ws : List ℕ) (p sum : ℕ)
    → All IsWord ws
    → drop p block ≡ memory_words order ws
    → sum + total ws < 2 ^ 32
    → sum_words order block (twice_length ws) p sum ≡ some (sum + total ws)
unfolding sum_words
sum_words_lem order block [] p sum h e fits = let z : sum + 0 ≡ sum = omega arith in rw z
sum_words_lem order block (w ∷ ws) p sum h e fits =
    let (here, rest) = load16-bytes16 order block p w (memory_words order ws) h.0 e in
    let s : p + 2 ≡ suc (suc p) = omega arith in
    let u : u32 (sum + w) ≡ sum + w = omega arith in
    let v : sum + w + total ws ≡ sum + (w + total ws) = omega arith in
    rw (here, s, u)
      (sum_words_lem order block ws (suc (suc p)) (sum + w) h.1 rest (omega arith) ∙ ap some v)

pub calc_checksum_lem :
    (order : ByteOrder) (ws : List ℕ)
    → All IsWord ws
    → total ws < 2 ^ 32
    → calc_checksum order (memory_words order ws) (twice_length ws) ≡ some (fold_sum (total ws))
unfolding calc_checksum
calc_checksum_lem order ws h fits =
    let z : 0 + total ws ≡ total ws = omega arith in
    rw (sum_words_lem order (memory_words order ws) ws 0 0 h refl (omega arith), z)

fold_sum-IsWord : (sum : ℕ) → IsWord (fold_sum sum)
unfolding fold_sum
fold_sum-IsWord sum = omega arith

fold_sum_complement : (sum : ℕ) → sum < 2 ^ 32 - 2 ^ 16 → fold_sum (sum + fold_sum sum) ≡ 0
unfolding fold_sum
fold_sum_complement sum h = omega arith

All-append : (xs ys : List ℕ) → All IsWord xs → All IsWord ys → All IsWord (xs ++ ys)
All-append [] ys h k = k
All-append (x ∷ xs) ys h k = (h.0, All-append xs ys h.1 k)

total-append : (xs ys : List ℕ) → total (xs ++ ys) ≡ total xs + total ys
total-append [] ys = omega arith
total-append (x ∷ xs) ys = omega (arith, total-append xs ys)

-- A block of words up to 2 ^ 32 - 2 ^ 16 in sum (65535 words, say), in which the checksum of the
-- block with zero in its place is stored, has the checksum zero, under either byte order.
pub calc_checksum_verifies :
    (order : ByteOrder) (before after : List ℕ)
    → All IsWord before
    → All IsWord after
    → total before + total after < 2 ^ 32 - 2 ^ 16
    → (sum : ℕ) × (calc_checksum order
          (memory_words order (before ++ 0 ∷ after))
          (twice_length (before ++ 0 ∷ after))
        ≡ some sum)
      × IsWord sum
      × (calc_checksum order
            (memory_words order (before ++ sum ∷ after))
            (twice_length (before ++ sum ∷ after))
          ≡ some 0)
calc_checksum_verifies order before after h k fits =
    let blank = before ++ 0 ∷ after in
    let sum = fold_sum (total blank) in
    let filled = before ++ sum ∷ after in
    let small : IsWord sum = fold_sum-IsWord (total blank) in
    let a : total blank ≡ total before + total after =
      omega (arith, total-append before (0 ∷ after)) in
    let b : total filled ≡ total blank + sum =
      omega (arith, total-append before (sum ∷ after), a) in
    (
      sum,
      calc_checksum_lem order blank (All-append before (0 ∷ after) h (omega arith, k))
          (omega arith),
      small,
      calc_checksum_lem order filled (All-append before (sum ∷ after) h (small, k)) (omega arith)
          ∙ ap some (ap fold_sum b ∙ fold_sum_complement (total blank) (omega arith)),
    )
