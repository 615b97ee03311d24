-- ===== src/Startup/Attempt.antt =====
-- netio.c: `netio_init` acquires all four of its resources or none, on every path.
use cwnet.Base.{
  ℕ, ◌≡◌, refl, ap, sym, subst, List, [], ◌∷◌, Option, some, Bool, true, false, ◌⊎◌, inl, inr,
  Bool-cases, if◌then◌else◌,
}
use cwnet.Slip.{slip_end}
use cwnet.Startup.{
  Resource, IoName, Machine, Boot, M, ◌>>=◌, acquire, release, netio_init, serial_request,
  timer_request, serial_device, timer_device, configure, set_serial_name, set_timer_name,
  open_timer, configure_serial, open_serial, create_timer_request,
}

-- The four resources of the network module.
abbrev pub module_held : List Resource → List Resource
module_held held = timer_device ∷ serial_device ∷ timer_request ∷ serial_request ∷ held

abbrev pub ends : List ℕ
ends = slip_end ∷ slip_end ∷ slip_end ∷ slip_end ∷ slip_end ∷ slip_end ∷ slip_end ∷ slip_end ∷ []

-- Both requests stand for their packets, and the serial device ends a read at SLIP's end marker.
abbrev pub ready : IoName → IoName → Boot → Boot
ready a b s = record s {
  held = module_held s.held;
  serial_name = some a;
  timer_name = some b;
  xdisabled = true;
  term_array = ends;
}

pub acquire_granted :
    (m : Machine) (r : Resource) (s : Boot)
    → m.grants r ≡ true
    → acquire m r s ≡ some (true, record s { held = r ∷ s.held })
unfolding acquire
acquire_granted m r s e =
    ap (λ g. if g then some (true, record s { held = r ∷ s.held }) else some (false, s)) e

pub acquire_refused :
    (m : Machine) (r : Resource) (s : Boot) → m.grants r ≡ false → acquire m r s ≡ some (false, s)
unfolding acquire
acquire_refused m r s e =
    ap (λ g. if g then some (true, record s { held = r ∷ s.held }) else some (false, s)) e

-- The serial device after SDCMD_SETPARAMS.
abbrev set_up : Boot → Boot
set_up s = record s { xdisabled = true; term_array = ends }

configure_lem :
    (m : Machine) (s : Boot) (ok : Bool) → m.configures ≡ ok → configure m s ≡ some (ok, set_up s)
unfolding configure
configure_lem m s ok e = ap (λ c. some (c, set_up s)) e

-- Something was refused.
abbrev pub Refused : Machine → Type 0
Refused m = ((r : Resource) × (m.grants r ≡ false)) ⊎ (m.configures ≡ false)

-- How a part of `netio_init` that runs in `s` ends, for the state `s₀` at the start of it all.
abbrev pub Attempt : Machine → Option (Bool × Boot) → IoName → IoName → Boot → Type 0
Attempt m r a b s₀ =
    (r ≡ some (true, ready a b s₀))
    ⊎ ((s' : Boot) × (r ≡ some (false, s'))
        × (s'.held ≡ s₀.held)
        × (s'.dn_task ≡ s₀.dn_task)
        × Refused m)

pub run :
    {A B : Type 0} (f : M A) (g : A → M B) (s : Boot) {x : A} {s' : Boot}
    → f s ≡ some (x, s')
    → (f >>= g) s ≡ g x s'
run f g s e = rw (e, ◌>>=◌)

Attempt-eq :
    (m : Machine) (a b : IoName) (s : Boot) {r r' : Option (Bool × Boot)}
    → r ≡ r'
    → Attempt m r' a b s
    → Attempt m r a b s
Attempt-eq m a b s e h = subst (λ x. Attempt m x a b s) (sym e) h

module _ (m : Machine) (a b : IoName) (s : Boot) where
  -- The states between the steps of `netio_init`.
  abbrev first_made : Boot
  first_made = record s { held = serial_request ∷ s.held; serial_name = some a }

  abbrev both_made : Boot
  both_made = record first_made {
    held = timer_request ∷ serial_request ∷ s.held;
    timer_name = some b;
  }

  abbrev opened : Boot
  opened = record both_made { held = serial_device ∷ timer_request ∷ serial_request ∷ s.held }

  open_timer-Attempt : Attempt m (open_timer m (set_up opened)) a b s
  unfolding open_timer release
  open_timer-Attempt = elim (Bool-cases (m.grants timer_device)) [
    | inl e ↦ inl (run (acquire m timer_device) _ _ (acquire_granted m timer_device _ e))
    | inr e ↦ inr (
      record (set_up opened) { held = s.held },
      run (acquire m timer_device) _ _ (acquire_refused m timer_device _ e),
      refl,
      refl,
      inl (timer_device, e),
    )
  ]

  configure_serial-Attempt : Attempt m (configure_serial m opened) a b s
  unfolding configure_serial release
  configure_serial-Attempt = elim (Bool-cases m.configures) [
    | inl e ↦
        Attempt-eq m a b s (run (configure m) _ _ (configure_lem m opened true e))
          open_timer-Attempt
    | inr e ↦ inr (
      record (set_up opened) { held = s.held },
      run (configure m) _ _ (configure_lem m opened false e),
      refl,
      refl,
      inr e,
    )
  ]

  open_serial-Attempt : Attempt m (open_serial m both_made) a b s
  unfolding open_serial release
  open_serial-Attempt = elim (Bool-cases (m.grants serial_device)) [
    | inl e ↦
        Attempt-eq m a b s
          (run (acquire m serial_device) _ _ (acquire_granted m serial_device both_made e))
          configure_serial-Attempt
    | inr e ↦ inr (
      record both_made { held = s.held },
      run (acquire m serial_device) _ _ (acquire_refused m serial_device both_made e),
      refl,
      refl,
      inl (serial_device, e),
    )
  ]

  create_timer_request-Attempt : Attempt m (create_timer_request m b first_made) a b s
  unfolding create_timer_request release set_timer_name
  create_timer_request-Attempt = elim (Bool-cases (m.grants timer_request)) [
    | inl e ↦
        Attempt-eq m a b s
          (run (acquire m timer_request) _ _ (acquire_granted m timer_request first_made e))
          open_serial-Attempt
    | inr e ↦ inr (
      record first_made { held = s.held },
      run (acquire m timer_request) _ _ (acquire_refused m timer_request first_made e),
      refl,
      refl,
      inl (timer_request, e),
    )
  ]

  pub netio_init-Attempt : Attempt m (netio_init m a b s) a b s
  unfolding netio_init set_serial_name
  netio_init-Attempt = elim (Bool-cases (m.grants serial_request)) [
    | inl e ↦
        Attempt-eq m a b s
          (run (acquire m serial_request) _ _ (acquire_granted m serial_request s e))
          create_timer_request-Attempt
    | inr e ↦ inr (
      s,
      run (acquire m serial_request) _ _ (acquire_refused m serial_request s e),
      refl,
      refl,
      inl (serial_request, e),
    )
  ]
