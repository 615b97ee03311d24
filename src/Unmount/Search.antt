-- ===== src/Unmount/Search.antt =====
-- unmount.c: which node of the DOS list is taken off it.
use cwnet.Base.{
  ℕ, suc, ◌+◌, ◌≡◌, ◌≢◌, ◌<◌, refl, ap, ◌∙◌, List, [], ◌∷◌, ◌++◌, some, true, false, inl, inr,
  Bool-cases, leb, ◌==◌, take, length, take-append, length-append, arith,
}
use cwnet.Handler.Names.{same_bytes}
use cwnet.Unmount.{DosList, has_name, remove_device}

-- The node has a BCPL string of at most 127 bytes as its name.
abbrev pub IsNamed : List ℕ → DosList → Type 0
IsNamed chars d =
    (rest : List ℕ) × (d.dol_name ≡ length chars ∷ chars ++ rest) × (length chars < 128)

-- None of the nodes is the device.
abbrev pub OtherNames : List ℕ → List DosList → Type 0
OtherNames dev [] = Unit {0}
OtherNames dev (d ∷ ds) =
    ((chars : List ℕ) × IsNamed chars d × (same_bytes chars dev ≡ false)) × OtherNames dev ds

same_bytes-length : (xs ys : List ℕ) → length xs ≢ length ys → same_bytes xs ys ≡ false
unfolding same_bytes
same_bytes-length [] [] h = absurd (h refl)
same_bytes-length [] (y ∷ ys) h = refl
same_bytes-length (x ∷ xs) [] h = refl
same_bytes-length (x ∷ xs) (y ∷ ys) h = elim (Bool-cases (x == y)) [
  | inl e ↦ rw e (same_bytes-length xs ys (λ e'. h (ap suc e')))
  | inr e ↦ rw e
]

same_bytes_self : (xs : List ℕ) → same_bytes xs xs ≡ true
unfolding same_bytes
same_bytes_self [] = refl
same_bytes_self (x ∷ xs) = let e : (x == x) ≡ true = ground arith in rw e (same_bytes_self xs)

has_name_lem :
    (dev chars rest : List ℕ) (c : ℕ)
    → length chars < 128
    → has_name (dev ++ c ∷ []) (length chars ∷ chars ++ rest) ≡ some (same_bytes chars dev)
unfolding has_name
has_name_lem dev chars rest c short =
    let positive : leb 128 (length chars) ≡ false = ground arith in
    let total = length-append dev (c ∷ []) in
    elim (Bool-cases (length chars + 1 == length (dev ++ c ∷ []))) [
      | inl e ↦
          let same : length chars ≡ length dev = ground arith in
          let inside : leb (length chars) (length (chars ++ rest)) ≡ true =
            (let all = length-append chars rest in ground arith) in
          rw (positive, e, inside, take-append chars rest)
            (ap (λ n. some (same_bytes chars (take n (dev ++ c ∷ [])))) same
              ∙ ap (λ d. some (same_bytes chars d)) (take-append dev (c ∷ [])))
      | inr e ↦
          let differ : length chars ≢ length dev = λ same. ground arith in
          rw (positive, e, same_bytes-length chars dev differ)
    ]

pub remove_device_lem :
    (dev : List ℕ) (c : ℕ) (before after : List DosList) (d : DosList)
    → OtherNames dev before
    → IsNamed dev d
    → remove_device (dev ++ c ∷ []) (before ++ d ∷ after) ≡ some (some d, before ++ after)
unfolding remove_device
remove_device_lem dev c [] after d others (rest, name, short) =
    rw (name, has_name_lem dev dev rest c short, same_bytes_self)
remove_device_lem dev c (b ∷ before) after d ((chars, (rest, name, short), differs), others) named =
    rw (
      name,
      has_name_lem dev chars rest c short,
      differs,
      remove_device_lem dev c before after d others named,
    )
