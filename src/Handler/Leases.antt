-- ===== src/Handler/Leases.antt =====
-- The list of locks: what do_locate_object and ACTION_FREE_LOCK keep of it.
pub mod Valid
use cwnet.Base.{
  ℕ, zero, suc, ◌+◌, ◌-◌, ◌≡◌, ◌≢◌, ◌≤◌, ◌<◌, refl, ap, sym, subst, ◌∙◌, List, [], ◌∷◌, ◌++◌,
  Option, none, some, Bool, true, false, ◌>>=◌, if◌then◌else◌, ◌==◌, length, arith, some-eq,
  >>=-eq-some, Bool-cases, Option-cases, ◌⊎◌, inl, inr, All, length-append,
}
use cwnet.Handler.Names.{bcpl_to_c_str}
use cwnet.Handler.State.{
  FileTransfer, Handler, LinkedLock, Request, locate_object, free_lock, return_dos_packet, dosfalse,
  dostrue,
}
use cwnet.Handler.Locks.{
  do_locate_object, locate, grant_target, grant_file, grant_lock, Target, upload, queue, queue_file,
  target, on_free_lock, find_lock_in_list, remove_lock, find_name,
}

-- No lock of the list has the address `a`.
abbrev pub Lacks : ℕ → List LinkedLock → Type 0
Lacks a ls = All (λ (l : LinkedLock). a ≢ l.address) ls

-- The addresses are different from each other.
abbrev pub Distinct : List LinkedLock → Type 0
Distinct [] = Unit
Distinct (l ∷ ls) = Lacks l.address ls × Distinct ls

-- Every address comes from an earlier request for memory.
abbrev pub Known : ℕ → List LinkedLock → Type 0
Known n ls = All (λ (l : LinkedLock). l.address < n) ls

module _ {N : Type 0} where
  -- The locks have different addresses, older than the next one, and each takes a block of memory.
  pub record IsValid (h : Handler N) : Type 0 where
    pub distinct : Distinct h.locks
    pub known : Known h.requests h.locks
    pub blocks : length h.locks ≤ h.lock_blocks

pub Known-Lacks : (n a : ℕ) (ls : List LinkedLock) → n ≤ a → Known n ls → Lacks a ls
Known-Lacks n a [] h k = tt
Known-Lacks n a (l ∷ ls) h k = ((λ e. omega (arith, k.0)), Known-Lacks n a ls h k.1)

pub Known-le : (n m : ℕ) (ls : List LinkedLock) → n ≤ m → Known n ls → Known m ls
Known-le n m [] h k = tt
Known-le n m (l ∷ ls) h k = (omega (arith, k.0), Known-le n m ls h k.1)

pub Known-append :
    (n : ℕ) (ls : List LinkedLock) (l : LinkedLock)
    → Known n ls
    → l.address < n
    → Known n (ls ++ l ∷ [])
Known-append n [] l k h = (h, tt)
Known-append n (m ∷ ls) l k h = (k.0, Known-append n ls l k.1 h)

Lacks-append :
    (a : ℕ) (ls : List LinkedLock) (l : LinkedLock)
    → Lacks a ls
    → a ≢ l.address
    → Lacks a (ls ++ l ∷ [])
Lacks-append a [] l k h = (h, tt)
Lacks-append a (m ∷ ls) l k h = (k.0, Lacks-append a ls l k.1 h)

pub Distinct-append :
    (ls : List LinkedLock) (l : LinkedLock)
    → Distinct ls
    → Lacks l.address ls
    → Distinct (ls ++ l ∷ [])
Distinct-append [] l d k = (tt, tt)
Distinct-append (m ∷ ls) l d k =
    (Lacks-append m.address ls l d.0 (λ e. k.0 (sym e)), Distinct-append ls l d.1 k.1)

pub find_lock_in_list-Lacks :
    (a : ℕ) (ls : List LinkedLock) → Lacks a ls → find_lock_in_list a ls ≡ none
unfolding find_lock_in_list
find_lock_in_list-Lacks a [] k = refl
find_lock_in_list-Lacks a (l ∷ ls) k =
    let e : (l.address == a) ≡ false = ground (arith, k.0) in
    rw e (find_lock_in_list-Lacks a ls k.1)

pub find_lock_in_list-last :
    (a : ℕ) (ls : List LinkedLock) (l : LinkedLock)
    → Lacks a ls
    → l.address ≡ a
    → find_lock_in_list a (ls ++ l ∷ []) ≡ some l
unfolding find_lock_in_list
find_lock_in_list-last a [] l k e = let t : (l.address == a) ≡ true = ground arith in rw t
find_lock_in_list-last a (m ∷ ls) l k e =
    let t : (m.address == a) ≡ false = ground (arith, k.0) in
    rw t (find_lock_in_list-last a ls l k.1 e)

pub remove_lock-last :
    (a : ℕ) (ls : List LinkedLock) (l : LinkedLock)
    → Lacks a ls
    → l.address ≡ a
    → remove_lock a (ls ++ l ∷ []) ≡ ls
unfolding remove_lock
remove_lock-last a [] l k e = let t : (l.address == a) ≡ true = ground arith in rw t
remove_lock-last a (m ∷ ls) l k e =
    let t : (m.address == a) ≡ false = ground (arith, k.0) in
    rw t (ap (◌∷◌ m) (remove_lock-last a ls l k.1 e))

pub remove_lock-All {ℓ} :
    (P : LinkedLock → Type ℓ) (a : ℕ) (ls : List LinkedLock) → All P ls → All P (remove_lock a ls)
unfolding remove_lock
remove_lock-All P a [] k = tt
remove_lock-All P a (l ∷ ls) k = elim (Bool-cases (l.address == a)) [
  | inl same ↦ rw same k.1
  | inr other ↦ rw other (k.0, remove_lock-All P a ls k.1)
]

pub remove_lock-Distinct :
    (a : ℕ) (ls : List LinkedLock)
    → Distinct ls
    → Distinct (remove_lock a ls) × Lacks a (remove_lock a ls)
unfolding remove_lock
remove_lock-Distinct a [] d = (tt, tt)
remove_lock-Distinct a (l ∷ ls) d = elim (Bool-cases (l.address == a)) [
  | inl same ↦ let e : l.address ≡ a = ground arith in rw same (d.1, subst (λ b. Lacks b ls) e d.0)
  | inr other ↦
      let (d', k) = remove_lock-Distinct a ls d.1 in
      rw other (
        (remove_lock-All (λ (m : LinkedLock). l.address ≢ m.address) a ls d.0, d'),
        ((λ e. ground arith), k),
      )
]

pub length-remove_lock :
    (a : ℕ) (ls : List LinkedLock) (l : LinkedLock)
    → find_lock_in_list a ls ≡ some l
    → length ls ≡ suc (length (remove_lock a ls))
unfolding remove_lock find_lock_in_list
length-remove_lock a [] l h = cc
length-remove_lock a (m ∷ ls) l h = elim (Bool-cases (m.address == a)) [
  | inl same ↦ rw same refl
  | inr other ↦ rw other (ap suc (length-remove_lock a ls l (rw other at h)))
]

module _ {N : Type 0} where
  -- What a request for a lock, with memory for it, leaves of the locks.
  pub record Located (a : ℕ) (h h' : Handler N) : Type 0 where
    pub requests_eq : h'.requests ≡ h.requests
    pub blocks_eq : h'.lock_blocks ≡ h.lock_blocks
    pub locks_eq :
        (h'.locks ≡ h.locks) ⊎ ((l : LinkedLock) × (l.address ≡ a) × (h'.locks ≡ h.locks ++ l ∷ []))

  grant_file-Located :
      (r : Request) (a mode : ℕ) (found : Option ℕ) (h : Handler N)
      → Located a h (grant_file r a mode found h)
  unfolding grant_file grant_lock return_dos_packet
  grant_file-Located r a mode (some i) h = record {
    requests_eq = refl;
    blocks_eq = refl;
    locks_eq = inr (_, refl, refl);
  }
  grant_file-Located r a mode none h = record {
    requests_eq = refl;
    blocks_eq = refl;
    locks_eq = inl refl;
  }

  grant_target-Located :
      (r : Request) (a mode : ℕ) (t : Target) (h : Handler N)
      → Located a h (grant_target r a mode t h)
  unfolding grant_target grant_lock return_dos_packet
  grant_target-Located r a mode upload h = record {
    requests_eq = refl;
    blocks_eq = refl;
    locks_eq = inl refl;
  }
  grant_target-Located r a mode queue h = record {
    requests_eq = refl;
    blocks_eq = refl;
    locks_eq = inr (_, refl, refl);
  }
  grant_target-Located r a mode (queue_file name) h =
      grant_file-Located r a mode (find_name name h.transfers) h

  pub locate-Located :
      (r : Request) (a dir : ℕ) (fname : List ℕ) (mode : ℕ) (h : Handler N)
      → Located a h (locate r a dir fname mode h)
  unfolding locate return_dos_packet
  locate-Located r a dir fname mode h = elim (Bool-cases (dir == 0)) [
    | inl top ↦ rw top (grant_target-Located r a mode (target fname) h)
    | inr sub ↦ rw sub (record { requests_eq = refl; blocks_eq = refl; locks_eq = inl refl })
  ]
