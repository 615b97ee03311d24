-- ===== src/Serecho/Safe.antt =====
-- serecho.c: whatever comes in, in whatever order.
use cwnet.Base.{
  ℕ, zero, suc, ◌≡◌, refl, ap, sym, ◌∙◌, List, [], ◌∷◌, ◌++◌, Option, none, some, Bool, true, false,
  not, if◌then◌else◌, ◌==◌, ◌>>=◌, ◌⊎◌, inl, inr, Bool-cases, length, get_elem?, arith,
  append_assoc, append-nil, All,
}
use cwnet.Handler.Names.{until_nul}
use cwnet.Serecho.{
  Event, ctrl_c, timer_message, serial_message, no_message, Session, Command, cmd_read, cmd_write,
  on_read, on_event, start_write, start_read, echo_loop, Resource, port, serial_request,
  timer_request, serial_device, timer_device, with_resource, serve, serecho, Machine,
}
use cwnet.Serecho.Echo.{answer, on_read_lem, on_read_stop}
use cwnet.Serecho.Served.{give_back_lem}

-- `rxbuf` has its 256 bytes.
abbrev pub IsSized : Event → Type 0
IsSized ctrl_c = Unit
IsSized (timer_message done) = Unit
IsSized (serial_message done error received) = length received ≡ 256
IsSized no_message = Unit

-- The bytes are the answer to some contents of `rxbuf`.
abbrev pub IsAnswer : List ℕ → Type 0
IsAnswer bytes = (rxbuf : List ℕ) × (length rxbuf ≡ 256) × (bytes ≡ answer rxbuf)

-- From `s` to `s'` only answers were written, and what is held is the same.
pub record Kept (s s' : Session) : Type 0 where
  pub full : length s'.txbuf ≡ 256
  pub resources : s'.held ≡ s.held
  pub texts : (more : List (List ℕ)) × (s'.written ≡ s.written ++ more) × All IsAnswer more

unchanged : (s : Session) → length s.txbuf ≡ 256 → Kept s s
unchanged s full = record {
  full = full;
  resources = refl;
  texts = ([], sym (append-nil s.written), tt);
}

All-append : (xs ys : List (List ℕ)) → All IsAnswer xs → All IsAnswer ys → All IsAnswer (xs ++ ys)
All-append [] ys a b = b
All-append (x ∷ xs) ys (here, a) b = (here, All-append xs ys a b)

one_after_another : (s t u : Session) → Kept s t → Kept t u → Kept s u
one_after_another s t u a b =
    let (xs, first, fine) = a.texts in
    let (ys, second, fine') = b.texts in
    record {
      full = b.full;
      resources = b.resources ∙ a.resources;
      texts = (
        xs ++ ys,
        second ∙ ap (λ w. w ++ ys) first ∙ append_assoc s.written xs ys,
        All-append xs ys fine fine',
      );
    }

get_elem?-first : (xs : List ℕ) → length xs ≡ 256 → (c : ℕ) × (get_elem? xs 0 ≡ some c)
get_elem?-first [] e = absurd (omega (arith, e))
get_elem?-first (x ∷ xs) e = (x, refl)

on_read-Kept :
    (rxbuf : List ℕ) (s : Session)
    → length rxbuf ≡ 256
    → length s.txbuf ≡ 256
    → (s' : Session) × (on_read rxbuf s ≡ some s') × Kept s s'
unfolding start_write
on_read-Kept rxbuf s size full =
    let (c, first) = get_elem?-first rxbuf size in
    elim (Bool-cases (c == b'.')) [
      | inl dot ↦
          let is_dot : c ≡ b'.' = ground arith in
          (
            record s { timer_out = false; running = false },
            on_read_stop rxbuf s (first ∙ ap some is_dot),
            record { full = full; resources = refl; texts = ([], sym (append-nil s.written), tt) },
          )
      | inr more ↦
          let (txbuf, holds, run) = on_read_lem rxbuf s c full size first more in
          (
            start_write txbuf (record s { timer_out = false }),
            run,
            record {
              full = holds.full;
              resources = refl;
              texts = (until_nul txbuf ∷ [], refl, ((rxbuf, size, holds.text), tt));
            },
          )
    ]

Command-cases : (c : Command) → (c ≡ cmd_read) ⊎ (c ≡ cmd_write)
Command-cases cmd_read = inl refl
Command-cases cmd_write = inr refl

on_event-Kept :
    (e : Event) (s : Session)
    → IsSized e
    → length s.txbuf ≡ 256
    → (b : Bool) × (s' : Session) × (on_event e s ≡ some (b, s')) × Kept s s'
unfolding on_event start_read
on_event-Kept ctrl_c s sized full = (true, s, refl, unchanged s full)
on_event-Kept no_message s sized full = (false, s, refl, unchanged s full)
on_event-Kept (timer_message false) s sized full = (false, s, refl, unchanged s full)
on_event-Kept (timer_message true) s sized full = (
  true,
  record s { timer_out = false },
  refl,
  record { full = full; resources = refl; texts = ([], sym (append-nil s.written), tt) },
)
on_event-Kept (serial_message false error received) s sized full =
    (false, s, refl, unchanged s full)
on_event-Kept (serial_message true (suc n) received) s sized full = (
  true,
  record s { serial_out = false },
  refl,
  record { full = full; resources = refl; texts = ([], sym (append-nil s.written), tt) },
)
on_event-Kept (serial_message true zero received) s sized full =
    let finished : Session = record s { serial_out = false } in
    let go_on : Command → Option (Bool × Session) = λ c. elim c [
      | cmd_read ↦ on_read received finished >>= λ s'. some (false, s')
      | cmd_write ↦ some (false, start_read finished)
    ] in
    elim (Command-cases s.command) [
      | inl read ↦
          let (s', run, kept) = on_read-Kept received finished sized full in
          (
            false,
            s',
            ap go_on read ∙ ap (λ o. o >>= λ t. some (false, t)) run,
            record { full = kept.full; resources = kept.resources; texts = kept.texts },
          )
      | inr write ↦ (
        false,
        start_read finished,
        ap go_on write,
        record { full = full; resources = refl; texts = ([], sym (append-nil s.written), tt) },
      )
    ]

echo_loop_step :
    (e : Event) (es : List Event) (s : Session) (b : Bool) (s' : Session)
    → s.running ≡ true
    → on_event e s ≡ some (b, s')
    → echo_loop (e ∷ es) s ≡ (if b then some (b, s') else echo_loop es s')
unfolding echo_loop
echo_loop_step e es s b s' runs run =
    ap
      (λ r.
        if r
        then (on_event e s >>= λ r. if r.0 then some r else echo_loop es r.1)
        else some (true, s))
      runs
    ∙ ap (λ o. o >>= λ r. if r.0 then some r else echo_loop es r.1) run

echo_loop-Kept :
    (es : List Event) (s : Session)
    → All IsSized es
    → length s.txbuf ≡ 256
    → (b : Bool) × (s' : Session) × (echo_loop es s ≡ some (b, s')) × Kept s s'
unfolding echo_loop
echo_loop-Kept [] s sized full = (not s.running, s, refl, unchanged s full)
echo_loop-Kept (e ∷ es) s (here, sized) full = elim (Bool-cases s.running) [
  | inr ended ↦ (true, s, rw ended, unchanged s full)
  | inl runs ↦
      let (b, s', run, kept) = on_event-Kept e s here full in
      let (b', s'', run', kept') = echo_loop-Kept es s' sized kept.full in
      elim (Bool-cases b) [
        | inl leaves ↦ (
          b,
          s',
          echo_loop_step e es s b s' runs run
              ∙ ap (λ c. if c then some (b, s') else echo_loop es s') leaves,
          kept,
        )
        | inr stays ↦ (
          b',
          s'',
          echo_loop_step e es s b s' runs run
              ∙ ap (λ c. if c then some (b, s') else echo_loop es s') stays
              ∙ run',
          one_after_another s s' s'' kept kept',
        )
      ]
]

-- A part of `main` that does not fault, and holds in the end what it held before, if it has ended.
abbrev pub IsSafe : (Session → Option (Option Session)) → Type 0
IsSafe body =
    (s : Session)
    → length s.txbuf ≡ 256
    → (body s ≡ some none) ⊎ ((s' : Session) × (body s ≡ some (some s')) × Kept s s')

with_resource-IsSafe :
    (r : Resource) (granted : Bool) {body : Session → Option (Option Session)}
    → IsSafe body
    → IsSafe (with_resource granted r body)
unfolding with_resource
with_resource-IsSafe r false safe s full = inr (s, refl, unchanged s full)
with_resource-IsSafe r true safe s full = elim (safe (record s { held = r ∷ s.held }) full) [
  | inl waits ↦ inl (rw waits)
  | inr (s', run, kept) ↦ inr (
    record s' { held = s.held },
    rw (run, give_back_lem r s' s.held kept.resources),
    record { full = kept.full; resources = refl; texts = kept.texts },
  )
]

serve-IsSafe : (configured : Bool) (es : List Event) → All IsSized es → IsSafe (serve configured es)
unfolding serve start_read
serve-IsSafe false es sized s full = inr (s, refl, unchanged s full)
serve-IsSafe true es sized s full =
    let (b, s', run, kept) =
      echo_loop-Kept es (start_read (record s { running = true })) sized full in
    elim (Bool-cases b) [
      | inr waits ↦ inl (rw (run, waits))
      | inl ended ↦ inr (
        record s' { serial_out = false },
        rw (run, ended),
        record { full = kept.full; resources = kept.resources; texts = kept.texts },
      )
    ]

-- Whatever is granted, and whatever messages, errors and signals come in, in whatever order:
-- serecho accesses nothing outside its arrays of 256 bytes. Either it still waits, or it has ended
-- and has given back exactly what it acquired; and then all that it has given to the serial device
-- are answers: "ECHO: " and the bytes of a message up to its NUL, of which 249 at most.
pub serecho_safe :
    (m : Machine) (es : List Event) (s : Session)
    → All IsSized es
    → length s.txbuf ≡ 256
    → (serecho m es s ≡ some none)
      ⊎ ((s' : Session) × (serecho m es s ≡ some (some s')) × Kept s s')
unfolding serecho
serecho_safe m es s sized full =
    with_resource-IsSafe port (m.grants port)
      (with_resource-IsSafe serial_request (m.grants serial_request) (
        with_resource-IsSafe timer_request (m.grants timer_request) (
          with_resource-IsSafe serial_device (m.grants serial_device) (
            with_resource-IsSafe timer_device (m.grants timer_device)
              (serve-IsSafe m.configures es sized)))))
      s full
