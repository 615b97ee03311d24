-- ===== src/Minitftp/Runs.antt =====
-- Rules for what a chain of statements of minitftp.c does: that it runs to its end, and what holds
-- then.
use cwnet.Base.{
  ◌≡◌, ◌≢◌, refl, ap, sym, subst, ◌∙◌, [], ◌∷◌, ◌++◌, Option, none, some, Bool, true, false, inl,
  inr, Option-cases,
}
use cwnet.Minitftp.Host.{
  Outcome, fault, waits, done, await, Locals, M, ◌>>=◌, pure, lift, say, fail, call, release,
  Message, branch,
}
use cwnet.Minitftp.Command.{get}

-- With `may`, the statements may also wait for ever in a call.
pub data RunsIf (may : Bool) {W A : Type 0} (m : M W A) (l : Locals W) (P : A → Locals W → Type 0)
    : Type 0 where
  waited : may ≡ true → m l ≡ waits → RunsIf may m l P
  ended :
      (result : A) (after : Locals W)
      → m l ≡ done (result, after)
      → P result after
      → RunsIf may m l P

-- The statements end, or wait for ever in a call.
abbrev pub Runs : {W A : Type 0} → M W A → Locals W → (A → Locals W → Type 0) → Type 0
Runs m l P = RunsIf true m l P

-- The statements end.
abbrev pub Completes : {W A : Type 0} → M W A → Locals W → (A → Locals W → Type 0) → Type 0
Completes m l P = RunsIf false m l P

module _ {W : Type 0} where
  >>=_lem :
      {A B : Type 0} (m : M W A) (f : A → M W B) {l l' : Locals W} {a : A}
      → m l ≡ done (a, l')
      → (m >>= f) l ≡ f a l'
  unfolding ◌>>=◌
  >>=_lem m f e = rw (e, ◌>>=◌)

  pure_lem : {A : Type 0} (a : A) (l : Locals W) → pure a l ≡ done (a, l)
  unfolding pure
  pure_lem a l = refl

  lift_lem :
      {A : Type 0} (o : Option A) (a : A) (l : Locals W) → o ≡ some a → lift o l ≡ done (a, l)
  unfolding lift
  lift_lem o a l e = rw (e, lift)

  get_lem : (l : Locals W) → get l ≡ done (l, l)
  unfolding get
  get_lem l = refl

  call_lem :
      {A : Type 0} (f : W → A × W) (l : Locals W)
      → call f l ≡ done ((f l.world).0, record l { world = (f l.world).1 })
  unfolding call
  call_lem f l = refl

  release_lem : (f : W → W) (l : Locals W) → release f l ≡ done (tt, record l { world = f l.world })
  unfolding release
  release_lem f l = refl

  say_lem :
      (m : Message) (l : Locals W) → say m l ≡ done (tt, record l { output = l.output ++ m ∷ [] })
  unfolding say
  say_lem m l = refl

  fail_lem :
      (m : Message) (l : Locals W)
      → fail m l ≡ done (tt, record l { output = l.output ++ m ∷ []; error = true })
  unfolding fail
  fail_lem m l = refl

  >>=_waits :
      {A B : Type 0} (m : M W A) (f : A → M W B) {l : Locals W} → m l ≡ waits → (m >>= f) l ≡ waits
  unfolding ◌>>=◌
  >>=_waits m f e = rw (e, ◌>>=◌)

  await_done :
      {A : Type 0} (f : W → Option (A × W)) (l : Locals W) {a : A} {w : W}
      → f l.world ≡ some (a, w)
      → await f l ≡ done (a, record l { world = w })
  unfolding await
  await_done f l e =
      ap (λ o. elim o [ none ↦ waits | some (a, w) ↦ done (a, record l { world = w }) ]) e

  await_waits :
      {A : Type 0} (f : W → Option (A × W)) (l : Locals W) → f l.world ≡ none → await f l ≡ waits
  unfolding await
  await_waits f l e =
      ap (λ o. elim o [ none ↦ waits | some (a, w) ↦ done (a, record l { world = w }) ]) e

module _ {may : Bool} {W : Type 0} where
  pub runs_after :
      {A B : Type 0} (m : M W A) (f : A → M W B) {l l' : Locals W} {a : A}
      {Q : B → Locals W → Type 0}
      → m l ≡ done (a, l')
      → RunsIf may (f a) l' Q
      → RunsIf may (m >>= f) l Q
  runs_after m f e (waited ok w) = waited ok (>>=_lem m f e ∙ w)
  runs_after m f e (ended b l'' run h) = ended b l'' (>>=_lem m f e ∙ run) h

  pub runs_bind :
      {A B : Type 0} {m : M W A} {f : A → M W B} {l : Locals W} {P : A → Locals W → Type 0}
      {Q : B → Locals W → Type 0}
      → RunsIf may m l P
      → ((a : A) (l' : Locals W) → P a l' → RunsIf may (f a) l' Q)
      → RunsIf may (m >>= f) l Q
  runs_bind {m} {f} (waited ok w) k = waited ok (>>=_waits m f w)
  runs_bind {m} {f} (ended a l' run h) k = runs_after m f run (k a l' h)

  pub runs_pure :
      {A : Type 0} (a : A) {l : Locals W} {P : A → Locals W → Type 0}
      → P a l
      → RunsIf may (pure a) l P
  runs_pure a {l} h = ended a l (pure_lem a l) h

  pub runs_lift :
      {A B : Type 0} (o : Option A) (f : A → M W B) {l : Locals W} {a : A}
      {Q : B → Locals W → Type 0}
      → o ≡ some a
      → RunsIf may (f a) l Q
      → RunsIf may (lift o >>= f) l Q
  runs_lift o f {l} {a} e r = runs_after (lift o) f (lift_lem o a l e) r

  pub runs_get :
      {B : Type 0} (f : Locals W → M W B) {l : Locals W} {Q : B → Locals W → Type 0}
      → RunsIf may (f l) l Q
      → RunsIf may (get >>= f) l Q
  runs_get f {l} r = runs_after get f (get_lem l) r

  pub runs_do :
      {A B : Type 0} (g : W → A × W) (f : A → M W B) {l : Locals W} {Q : B → Locals W → Type 0}
      → RunsIf may (f (g l.world).0) (record l { world = (g l.world).1 }) Q
      → RunsIf may (call g >>= f) l Q
  runs_do g f {l} r = runs_after (call g) f (call_lem g l) r

  -- A call that returns.
  pub runs_returned :
      {A B : Type 0} (g : W → Option (A × W)) (f : A → M W B) {l : Locals W} {a : A} {w : W}
      {Q : B → Locals W → Type 0}
      → g l.world ≡ some (a, w)
      → RunsIf may (f a) (record l { world = w }) Q
      → RunsIf may (await g >>= f) l Q
  runs_returned g f {l} e r = runs_after (await g) f (await_done g l e) r

  pub runs_call :
      {A : Type 0} (f : W → A × W) {l : Locals W} {P : A → Locals W → Type 0}
      → P (f l.world).0 (record l { world = (f l.world).1 })
      → RunsIf may (call f) l P
  runs_call f {l} h = ended (f l.world).0 (record l { world = (f l.world).1 }) (call_lem f l) h

  pub runs_release :
      (f : W → W) {l : Locals W} {P : Unit {0} → Locals W → Type 0}
      → P tt (record l { world = f l.world })
      → RunsIf may (release f) l P
  runs_release f {l} h = ended tt (record l { world = f l.world }) (release_lem f l) h

  pub runs_say :
      (m : Message) {l : Locals W} {P : Unit {0} → Locals W → Type 0}
      → P tt (record l { output = l.output ++ m ∷ [] })
      → RunsIf may (say m) l P
  runs_say m {l} h = ended tt (record l { output = l.output ++ m ∷ [] }) (say_lem m l) h

  pub runs_fail :
      (m : Message) {l : Locals W} {P : Unit {0} → Locals W → Type 0}
      → P tt (record l { output = l.output ++ m ∷ []; error = true })
      → RunsIf may (fail m) l P
  runs_fail m {l} h =
      ended tt (record l { output = l.output ++ m ∷ []; error = true }) (fail_lem m l) h

  pub runs_if :
      {A : Type 0} (test : Bool) (f g : M W A) {l : Locals W} {P : A → Locals W → Type 0}
      → (test ≡ true → RunsIf may f l P)
      → (test ≡ false → RunsIf may g l P)
      → RunsIf may (branch test f g) l P
  unfolding branch
  runs_if true f g h k = h refl
  runs_if false f g h k = k refl

  pub runs_weaken :
      {A : Type 0} {m : M W A} {l : Locals W} {P Q : A → Locals W → Type 0}
      → RunsIf may m l P
      → ((a : A) (l' : Locals W) → P a l' → Q a l')
      → RunsIf may m l Q
  runs_weaken (waited ok w) k = waited ok w
  runs_weaken (ended a l' run h) k = ended a l' run (k a l' h)

module _ {W : Type 0} where
  -- A call that may wait for ever.
  pub runs_await :
      {A B : Type 0} (g : W → Option (A × W)) (f : A → M W B) {l : Locals W}
      {Q : B → Locals W → Type 0}
      → ((a : A) (w : W) → g l.world ≡ some (a, w) → Runs (f a) (record l { world = w }) Q)
      → Runs (await g >>= f) l Q
  runs_await g f {l} k = elim (Option-cases (g l.world)) [
    | inl silent ↦ waited refl (>>=_waits (await g) f (await_waits g l silent))
    | inr ((a, w), e) ↦ runs_returned g f e (k a w e)
  ]

-- Statements that end, with a result for which the predicate holds.
pub end_of :
    {W A : Type 0} {m : M W A} {l : Locals W} {P : A → Locals W → Type 0}
    → Completes m l P
    → (a : A) × (l' : Locals W) × (m l ≡ done (a, l')) × P a l'
end_of (waited ok w) = cc ok
end_of (ended a l' run h) = (a, l', run, h)

done-eq : {A : Type 0} (o : Outcome A) (a b : A) → o ≡ done a → o ≡ done b → a ≡ b
done-eq o a b e f = ap (λ p. elim p [ fault ↦ a | waits ↦ a | done x ↦ x ]) (sym e ∙ f)

done_or_waits : {A : Type 0} (a : A) → ◌≢◌ {A = Outcome A} waits (done a)
done_or_waits a e =
    subst (λ p. elim p as (λ _. Type 0) [ fault ↦ Unit {0} | waits ↦ Unit {0} | done x ↦ ⊥ ]) e tt

-- The same run from two sides.
pub runs_both :
    {W A : Type 0} {m : M W A} {l : Locals W} {P Q : A → Locals W → Type 0}
    → Runs m l P
    → Completes m l Q
    → Completes m l (λ a l'. P a l' × Q a l')
runs_both r (waited ok w) = cc ok
runs_both (waited ok w) (ended b l'' run q) = absurd (done_or_waits _ (sym w ∙ run))
runs_both {m} {l} {P} {Q} (ended a l' run p) (ended b l'' run' q) =
    ended b l'' run' (subst (λ t. P t.0 t.1) (done-eq (m l) (a, l') (b, l'') run run') p, q)
