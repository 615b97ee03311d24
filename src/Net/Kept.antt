-- ===== src/Net/Kept.antt =====
-- What the routines of netio.c leave alone: addresses that were not given out stay free, and the
-- Buffer at one address, that of the caller, keeps what is said of it.
pub mod Routines
use cwnet.Base.{
  ℕ, ◌≡◌, ◌≢◌, ◌<◌, ap, sym, subst, ◌∙◌, Option, none, some, false, ◌==◌, arith, Option-cases, inl,
  inr, some-eq,
}
use cwnet.Slip.{Buffer}
use cwnet.Net.State.{
  Net, M, ◌>>=◌, ◌>>◌, pure, lift, deref, assign, set_errno, update, delete_buffer,
}
use cwnet.Net.Laws.{IsFresh, run}

-- The three ways in which an action depends on an option.
abbrev reading : {A : Type 0} → Net → Option A → Option (A × Net)
reading s o = elim o [ none ↦ none | some b ↦ some (b, s) ]

abbrev storing : Net → ℕ → Option Buffer → Option Buffer → Option (Unit {0} × Net)
storing s c v o = elim o [
  | none ↦ none
  | some old ↦ some (tt, record s { cell = update s.cell c v })
]

abbrev going_on : {A B : Type 0} → (A → M B) → Option (A × Net) → Option (B × Net)
going_on f o = elim o [ none ↦ none | some (a, t) ↦ f a t ]

module _ (pkt : ℕ) (P : Option Buffer → Type 0) where
  pub record Inv (s : Net) : Type 0 where
    pub fresh : IsFresh s
    pub near : pkt < s.next
    pub has : P (s.cell pkt)

  -- From a state with the invariant, the action ends in one, with a result of which `Q` holds.
  pub record IsSafe {A : Type 0} (m : M A) (Q : A → Type 0) : Type 0 where
    pub keeps : (s : Net) → Inv s → (a : A) (s' : Net) → m s ≡ some (a, s') → Inv s' × Q a

  pub safe_bind :
      {A B : Type 0} {m : M A} {f : A → M B} {Q : A → Type 0} {R : B → Type 0}
      → IsSafe m Q
      → ((a : A) → Q a → IsSafe (f a) R)
      → IsSafe (m >>= f) R
  safe_bind {A} {B} {m} {f} h k = record {
    keeps = λ s i b s'' e. elim (Option-cases (m s)) [
      | inl stuck ↦ cc (sym (ap (going_on f) stuck) ∙ e)
      | inr ((a, t), ran) ↦
          let (j, q) = h.keeps s i a t ran in (k a q).keeps t j b s'' (sym (run m f s ran) ∙ e)
    ];
  }

  pub safe_pure : {A : Type 0} (a : A) {Q : A → Type 0} → Q a → IsSafe (pure a) Q
  safe_pure a {Q} q = record {
    keeps = λ s i b s' e.
        let same = some-eq e in (subst Inv (ap (λ t. t.1) same) i, subst Q (ap (λ t. t.0) same) q);
  }

  -- An action that returns the state as it is, or faults.
  reads :
      {A : Type 0} (o : Net → Option A) (s : Net) (i : Inv s) (a : A) (s' : Net)
      → ◌≡◌ {A = Option (A × Net)}
          (elim (o s) [ none ↦ none | some b ↦ some (b, s) ])
          (some (a, s'))
      → Inv s'
  reads {A} o s i a s' e = elim (Option-cases (o s)) [
    | inl stuck ↦ cc (sym (ap (reading s) stuck) ∙ e)
    | inr (b, got) ↦
        let same = some-eq (sym (ap (reading s) got) ∙ e) in subst Inv (ap (λ t. t.1) same) i
  ]

  pub safe_lift : {A : Type 0} (o : Option A) → IsSafe (lift o) (λ _. Unit {0})
  safe_lift o = record { keeps = λ s i a s' e. (reads (λ _. o) s i a s' e, tt) }

  pub safe_deref : (c : ℕ) → IsSafe (deref c) (λ _. Unit {0})
  unfolding deref
  safe_deref c = record { keeps = λ s i a s' e. (reads (λ t. t.cell c) s i a s' e, tt) }

  pub safe_set_errno : (n : ℕ) → IsSafe (set_errno n) (λ _. Unit {0})
  unfolding set_errno
  safe_set_errno n = record {
    keeps = λ s i a s' e. (
      subst Inv (ap (λ t. t.1) (some-eq e))
          (record { fresh = i.fresh; near = i.near; has = i.has }),
      tt,
    );
  }

  -- A Buffer other than that of the caller is replaced or freed.
  put :
      (c : ℕ) (v : Option Buffer) (old : Buffer) (s : Net)
      → c ≢ pkt
      → Inv s
      → s.cell c ≡ some old
      → Inv (record s { cell = update s.cell c v })
  put c v old s differ i there = record {
    fresh = λ a far. ground (arith, i.fresh a far, there);
    near = i.near;
    has = subst P (let other : (c == pkt) ≡ false = ground arith in rw other) i.has;
  }

  putting :
      (c : ℕ) (v : Option Buffer) (s : Net) (i : Inv s) (s' : Net) (u : Unit {0})
      → c ≢ pkt
      → ◌≡◌ {A = Option (Unit {0} × Net)}
          (elim (s.cell c) [
            | none ↦ none
            | some old ↦ some (tt, record s { cell = update s.cell c v })
          ])
          (some (u, s'))
      → Inv s'
  putting c v s i s' u differ e = elim (Option-cases (s.cell c)) [
    | inl stuck ↦ cc (sym (ap (storing s c v) stuck) ∙ e)
    | inr (old, there) ↦
        let same = some-eq (sym (ap (storing s c v) there) ∙ e) in
        subst Inv (ap (λ t. t.1) same) (put c v old s differ i there)
  ]

  pub safe_assign : (c : ℕ) (b : Buffer) → c ≢ pkt → IsSafe (assign c b) (λ _. Unit {0})
  unfolding assign
  safe_assign c b differ = record {
    keeps = λ s i u s' e. (putting c (some b) s i s' u differ e, tt);
  }

  pub safe_delete : (c : ℕ) → c ≢ pkt → IsSafe (delete_buffer c) (λ _. Unit {0})
  unfolding delete_buffer
  safe_delete c differ = record { keeps = λ s i u s' e. (putting c none s i s' u differ e, tt) }
