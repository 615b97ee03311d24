-- ===== src/Handler/Naming.antt =====
-- The names of do_find_output and of the FileInfoBlock.
use cwnet.Base.{
  ℕ, zero, suc, ◌+◌, ◌-◌, ◌%◌, ◌≡◌, ◌≢◌, ◌≤◌, ◌<◌, refl, ap, List, [], ◌∷◌, ◌++◌, none, some, true,
  false, ◌==◌, length, take, arith, All,
}
use cwnet.Handler.Names.{
  after_first, after_last, or_else, skip_two, url_file_name, colon, slash, fib_name, bcpl_read,
}

-- None of the bytes is `c`.
abbrev pub Avoids : ℕ → List ℕ → Type 0
Avoids c xs = All (λ x. x ≢ c) xs

after_last-Avoids : (c : ℕ) (xs : List ℕ) → Avoids c xs → after_last c xs ≡ none
unfolding after_last or_else
after_last-Avoids c [] h = refl
after_last-Avoids c (x ∷ xs) h =
    let e : (x == c) ≡ false = ground (arith, h.0) in rw (after_last-Avoids c xs h.1, e)

after_last-append :
    (c : ℕ) (front xs : List ℕ) → Avoids c xs → after_last c (front ++ c ∷ xs) ≡ some xs
unfolding after_last or_else
after_last-append c [] xs h =
    let e : (c == c) ≡ true = ground arith in rw (after_last-Avoids c xs h, e)
after_last-append c (x ∷ front) xs h = rw (after_last-append c front xs h)

after_first-append :
    (c : ℕ) (front xs : List ℕ) → Avoids c front → after_first c (front ++ c ∷ xs) ≡ some xs
unfolding after_first
after_first-append c [] xs h = let e : (c == c) ≡ true = ground arith in rw e
after_first-append c (x ∷ front) xs h =
    let e : (x == c) ≡ false = ground (arith, h.0) in rw e (after_first-append c front xs h.1)

Avoids-append : (c : ℕ) (xs ys : List ℕ) → Avoids c xs → Avoids c ys → Avoids c (xs ++ ys)
Avoids-append c [] ys h k = k
Avoids-append c (x ∷ xs) ys h k = (h.0, Avoids-append c xs ys h.1 k)

-- The name in a URL `device://address/name`, where the address holds neither a colon nor a slash
-- and the name no colon: its first 255 bytes.
pub url_file_name_lem :
    (device address name : List ℕ)
    → Avoids colon address
    → Avoids slash address
    → Avoids colon name
    → url_file_name (device ++ colon ∷ slash ∷ slash ∷ (address ++ slash ∷ name))
      ≡ some (take 255 name)
unfolding url_file_name skip_two
url_file_name_lem device address name no_colon no_slash h =
    let path = slash ∷ slash ∷ (address ++ slash ∷ name) in
    let plain : Avoids colon path = (
      ground arith,
      (ground arith, Avoids-append colon address (slash ∷ name) no_colon (ground arith, h)),
    ) in
    rw (after_last-append colon device path plain, after_first-append slash address name no_slash)

take-take_le {ℓ} : {A : Type ℓ} (n m : ℕ) (xs : List A) → n ≤ m → take n (take m xs) ≡ take n xs
take-take_le zero m xs h = refl
take-take_le (suc n) zero xs h = absurd (omega arith)
take-take_le (suc n) (suc m) [] h = refl
take-take_le (suc n) (suc m) (x ∷ xs) h = ap (◌∷◌ x) (take-take_le n m xs (omega arith))

-- The length byte of `fib_FileName` is one less than the length: a file name of 1 to 107 bytes is
-- listed without its last byte.
pub bcpl_read-fib_name :
    (name : List ℕ)
    → 0 < length name
    → length name < 108
    → bcpl_read (fib_name name) ≡ take (length name - 1) name
unfolding bcpl_read fib_name
bcpl_read-fib_name name some_byte short =
    let e : (length name % 108 + 256 - 1) % 256 ≡ length name - 1 = omega arith in
    rw e (take-take_le (length name - 1) 106 name (omega arith))
