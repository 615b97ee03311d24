-- ===== src/Net/Laws.antt =====
-- The actions on the heap: what allocating a Buffer, filling it and freeing it leave.
use cwnet.Base.{
  ℕ, suc, ◌≡◌, ◌≢◌, ◌≤◌, ◌<◌, refl, ◌∙◌, List, none, some, true, false, ◌==◌, length, arith,
  Bool-cases, inl, inr, ltb,
}
use cwnet.Protocol.{error_no_free_store}
use cwnet.Slip.{Buffer, max_buffer_size}
use cwnet.Packet.Copy.{Holds}
use cwnet.Net.State.{
  System, Net, M, ◌>>=◌, ◌>>◌, pure, set_errno, deref, assign, delete_buffer, create_buffer,
  with_buffer, or_null, update,
}

-- The first action of a chain has run.
pub run {ℓ κ} :
    {A : Type ℓ} {B : Type κ} (m : M A) (f : A → M B) (s : Net) {a : A} {s' : Net}
    → m s ≡ some (a, s')
    → (m >>= f) s ≡ f a s'
run m f s e = rw (e, ◌>>=◌)

-- No block stands at an address that has not been given out.
abbrev pub IsFresh : Net → Type 0
IsFresh s = (a : ℕ) → s.next ≤ a → s.cell a ≡ none

-- A Buffer with the given bytes in use.
pub record Full (s : Net) (a : ℕ) (bytes : List ℕ) : Type 0 where
  pub block : Buffer
  pub found : s.cell a ≡ some block
  pub holds : Holds block bytes

pub Full-lt : {s : Net} {a : ℕ} {bytes : List ℕ} → IsFresh s → Full s a bytes → a < s.next
Full-lt {s} {a} fresh f = elim (Bool-cases (ltb s.next (suc a))) [
  | inl far ↦ let e : s.cell a ≡ none = fresh a (ground arith) in absurd (cc (e, f.found))
  | inr near ↦ ground arith
]

-- `s'` is `s` after a Buffer was made that holds `bytes`.
pub record Made (s s' : Net) (bytes : List ℕ) : Type 0 where
  pub made : Full s' s.next bytes
  pub others : (c : ℕ) → c ≢ s.next → s'.cell c ≡ s.cell c
  pub next_eq : s'.next ≡ suc s.next
  pub no_error : s'.errno ≡ 0
  pub sreq_eq : s'.sreq ≡ s.sreq
  pub treq_eq : s'.treq ≡ s.treq
  pub wire_eq : s'.wire ≡ s.wire

pub Made-IsFresh : (s : Net) {s' : Net} {bytes : List ℕ} → IsFresh s → Made s s' bytes → IsFresh s'
Made-IsFresh s fresh m a h =
    m.others a (λ e. omega (arith, m.next_eq)) ∙ fresh a (omega (arith, m.next_eq))

module _ (sys : System) where
  unfoldable pub fresh_block : Net → Buffer
  fresh_block s = record { b_addr = sys.junk s.next; b_size = 0 }

  pub fresh_block-size : (s : Net) → length (fresh_block s).b_addr ≡ max_buffer_size
  unfolding fresh_block
  fresh_block-size s = sys.junk_size s.next

  unfoldable pub allocated : Net → Net
  unfolding fresh_block
  allocated s = record s { cell = update s.cell s.next (some (fresh_block s)); next = suc s.next }

  create_buffer_ok :
      (s : Net) → sys.alloc_ok s.next ≡ true → create_buffer sys s ≡ some (some s.next, allocated s)
  unfolding allocated create_buffer
  create_buffer_ok s h = rw (h, create_buffer)

  create_buffer_null :
      (s : Net)
      → sys.alloc_ok s.next ≡ false
      → create_buffer sys s ≡ some (none, record s { next = suc s.next })
  unfolding create_buffer
  create_buffer_null s h = rw (h, create_buffer)

  pub with_buffer_ok {ℓ} :
      {A : Type ℓ} (null : A) (body : ℕ → M A) (s : Net)
      → sys.alloc_ok s.next ≡ true
      → with_buffer sys null body s ≡ body s.next (allocated s)
  unfolding with_buffer
  with_buffer_ok null body s h =
      run (create_buffer sys) (or_null null body) s (create_buffer_ok s h)

  -- Out of memory: nothing changes but the error code and the count of requests.
  pub with_buffer_null {ℓ} :
      {A : Type ℓ} (null : A) (body : ℕ → M A) (s : Net)
      → sys.alloc_ok s.next ≡ false
      → with_buffer sys null body s
        ≡ some (null, record s { errno = error_no_free_store; next = suc s.next })
  unfolding with_buffer set_errno
  with_buffer_null null body s h =
      run (create_buffer sys) (or_null null body) s (create_buffer_null s h)

  pub deref-allocated : (s : Net) → deref s.next (allocated s) ≡ some (fresh_block s, allocated s)
  unfolding deref allocated
  deref-allocated s = ground arith

  pub deref-allocated_other :
      (s : Net) (a : ℕ) (b : Buffer)
      → IsFresh s
      → s.cell a ≡ some b
      → deref a (allocated s) ≡ some (b, allocated s)
  unfolding deref allocated
  deref-allocated_other s a b fresh e = elim (Bool-cases (s.next == a)) [
    | inl same ↦ let n : s.cell a ≡ none = fresh a (ground arith) in absurd (cc (e, n))
    | inr other ↦ rw (other, e, deref)
  ]

  -- Filling the new Buffer.
  unfoldable pub filled : Net → Buffer → Net
  unfolding allocated
  filled s r = record s {
    errno = 0;
    cell = update (allocated s).cell s.next (some r);
    next = suc s.next;
  }

  pub fill_lem :
      (s : Net) (r : Buffer)
      → (assign s.next r >> (set_errno 0 >> pure (some s.next))) (allocated s)
        ≡ some (some s.next, filled s r)
  unfolding assign set_errno allocated filled
  fill_lem s r = ground arith

  pub filled-Made :
      (s : Net) (r : Buffer) (bytes : List ℕ) → Holds r bytes → Made s (filled s r) bytes
  unfolding filled allocated
  filled-Made s r bytes h = record {
    made = record { block = r; found = ground arith; holds = h };
    others = λ c ne. ground arith;
    next_eq = refl;
    no_error = refl;
    sreq_eq = refl;
    treq_eq = refl;
    wire_eq = refl;
  }

-- Freeing a Buffer.
unfoldable pub freed : Net → ℕ → Net
freed s a = record s { cell = update s.cell a none }

pub delete_buffer_lem :
    (s : Net) (a : ℕ) (b : Buffer) → s.cell a ≡ some b → delete_buffer a s ≡ some (tt, freed s a)
unfolding delete_buffer freed
delete_buffer_lem s a b e = rw (e, delete_buffer)

pub freed-Full :
    {s : Net} {c : ℕ} {bytes : List ℕ} (a : ℕ) → a ≢ c → Full s c bytes → Full (freed s a) c bytes
unfolding freed
freed-Full a ne f = record { block = f.block; found = ground arith; holds = f.holds }

pub freed-IsFresh : (s : Net) (a : ℕ) → IsFresh s → IsFresh (freed s a)
unfolding freed
freed-IsFresh s a fresh c h = ground (arith, fresh c h)

pub deref_lem : (s : Net) (a : ℕ) (b : Buffer) → s.cell a ≡ some b → deref a s ≡ some (b, s)
unfolding deref
deref_lem s a b e = rw (e, deref)
