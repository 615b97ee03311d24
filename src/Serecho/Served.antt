-- ===== src/Serecho/Served.antt =====
-- serecho.c: a whole session with a client.
use cwnet.Base.{
  ℕ, ◌≡◌, refl, ap, sym, ◌∙◌, List, [], ◌∷◌, ◌++◌, map, Option, none, some, Bool, true, false,
  if◌then◌else◌, ◌==◌, length, get_elem?, append_assoc, append-nil, All,
}
use cwnet.Serecho.{
  Event, serial_message, Session, cmd_read, on_event, start_write, start_read, echo_loop, Resource,
  port, serial_request, timer_request, serial_device, timer_device, give_back, with_resource, serve,
  serecho, Machine, code,
}
use cwnet.Serecho.Echo.{answer, on_read_lem, on_read_stop}

-- What the device leaves in `rxbuf` for a message that does not end the session.
abbrev pub IsMessage : List ℕ → Type 0
IsMessage rxbuf =
    (length rxbuf ≡ 256) × ((c : ℕ) × (get_elem? rxbuf 0 ≡ some c) × ((c == b'.') ≡ false))

-- The events of a session: each read is followed by the end of a write, up to the message `stop`.
abbrev pub session : List (List ℕ) → List ℕ → List Event
session [] stop = serial_message true 0 stop ∷ []
session (m ∷ ms) stop = serial_message true 0 m ∷ serial_message true 0 m ∷ session ms stop

-- A state in which the program waits for a message.
abbrev reading : List ℕ → List (List ℕ) → List Resource → Session
reading txbuf written held = record {
  command = cmd_read;
  serial_out = true;
  timer_out = true;
  running = true;
  txbuf = txbuf;
  written = written;
  held = held;
}

-- Nothing is with a device, and `written` and `held` are as said.
pub record Done (s : Session) (written : List (List ℕ)) (held : List Resource) : Type 0 where
  pub texts : s.written ≡ written
  pub resources : s.held ≡ held
  pub no_timer : s.timer_out ≡ false
  pub no_serial : s.serial_out ≡ false

loop_served :
    (ms : List (List ℕ)) (stop txbuf : List ℕ) (written : List (List ℕ)) (held : List Resource)
    → All IsMessage ms
    → get_elem? stop 0 ≡ some b'.'
    → length txbuf ≡ 256
    → (s' : Session) × (echo_loop (session ms stop) (reading txbuf written held) ≡ some (true, s'))
      × Done s' (written ++ map answer ms) held
unfolding echo_loop on_event start_read start_write
loop_served [] stop txbuf written held messages ends full =
    let finished : Session = record (reading txbuf written held) { serial_out = false } in
    (
      record finished { timer_out = false; running = false },
      rw (on_read_stop stop finished ends),
      record {
        texts = sym (append-nil written);
        resources = refl;
        no_timer = refl;
        no_serial = refl;
      },
    )
loop_served (m ∷ ms) stop txbuf written held ((size, (c, first, more)), messages) ends full =
    let finished : Session = record (reading txbuf written held) { serial_out = false } in
    let (next, holds, run) = on_read_lem m finished c full size first more in
    let (s', run', done) =
      loop_served ms stop next (written ++ answer m ∷ []) held messages ends holds.full in
    (
      s',
      rw (run, holds.text) run',
      record {
        texts = done.texts ∙ append_assoc written (answer m ∷ []) (map answer ms);
        resources = done.resources;
        no_timer = done.no_timer;
        no_serial = done.no_serial;
      },
    )

code_same : (r : Resource) → (code r == code r) ≡ true
code_same port = refl
code_same serial_request = refl
code_same timer_request = refl
code_same serial_device = refl
code_same timer_device = refl

pub give_back_lem :
    (r : Resource) (s : Session) (rest : List Resource)
    → s.held ≡ r ∷ rest
    → give_back r s ≡ some (record s { held = rest })
unfolding give_back
give_back_lem r s rest e =
    ap
      (λ held. elim held [
        | [] ↦ none
        | h ∷ others ↦ if code h == code r then some (record s { held = others }) else none
      ])
      e
    ∙ ap (λ b. if b then some (record s { held = rest }) else none) (code_same r)

-- A part of `main` that ends, has written `out`, and holds what it held before.
abbrev pub Serves : List (List ℕ) → (Session → Option (Option Session)) → Type 0
Serves out body =
    (s : Session)
    → length s.txbuf ≡ 256
    → (s' : Session) × (body s ≡ some (some s')) × Done s' (s.written ++ out) s.held

with_resource-Serves :
    (out : List (List ℕ)) (r : Resource) (granted : Bool) {body : Session → Option (Option Session)}
    → granted ≡ true
    → Serves out body
    → Serves out (with_resource granted r body)
unfolding with_resource
with_resource-Serves out r granted ok serves s full =
    let (s', run, done) = serves (record s { held = r ∷ s.held }) full in
    (
      record s' { held = s.held },
      rw (ok, run, give_back_lem r s' s.held done.resources),
      record {
        texts = done.texts;
        resources = refl;
        no_timer = done.no_timer;
        no_serial = done.no_serial;
      },
    )

serve-Serves :
    (ms : List (List ℕ)) (stop : List ℕ) (configured : Bool)
    → configured ≡ true
    → All IsMessage ms
    → get_elem? stop 0 ≡ some b'.'
    → Serves (map answer ms) (serve configured (session ms stop))
unfolding serve start_read
serve-Serves ms stop configured ok messages ends s full =
    let (s', run, done) = loop_served ms stop s.txbuf s.written s.held messages ends full in
    (
      record s' { serial_out = false },
      rw (ok, run),
      record {
        texts = done.texts;
        resources = done.resources;
        no_timer = done.no_timer;
        no_serial = refl;
      },
    )

-- On a machine that grants all, for any messages that do not begin with a dot and one that does:
-- serecho writes for each message "ECHO: " and the message up to its NUL, of which 249 bytes at
-- most, in the order of the messages. It then ends, accesses nothing outside its arrays, and has
-- given back all that it acquired, with both requests back from their devices.
pub serecho-Done :
    (ms : List (List ℕ)) (stop : List ℕ) (m : Machine) (s : Session)
    → ((r : Resource) → m.grants r ≡ true)
    → m.configures ≡ true
    → All IsMessage ms
    → get_elem? stop 0 ≡ some b'.'
    → length s.txbuf ≡ 256
    → (s' : Session) × (serecho m (session ms stop) s ≡ some (some s'))
      × Done s' (s.written ++ map answer ms) s.held
unfolding serecho
serecho-Done ms stop m s granted configured messages ends full =
    let out = map answer ms in
    with_resource-Serves out port (m.grants port) (granted port)
      (with_resource-Serves out serial_request (m.grants serial_request) (granted serial_request) (
        with_resource-Serves out timer_request (m.grants timer_request) (granted timer_request) (
          with_resource-Serves out serial_device (m.grants serial_device) (granted serial_device) (
            with_resource-Serves out timer_device (m.grants timer_device) (granted timer_device)
              (serve-Serves ms stop m.configures configured messages ends)))))
      s full
