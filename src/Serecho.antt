-- ===== src/Serecho.antt =====
-- serecho.c, the test program that sends back what it receives: its loop over the messages of its
-- port, and `main`, with `none` for an access outside an array.
pub mod Echo
pub mod Served
pub mod Safe
use cwnet.Base.{
  ℕ, zero, suc, ◌+◌, ◌-◌, List, [], ◌∷◌, ◌++◌, Option, none, some, Bool, true, false, not, ◌||◌,
  if◌then◌else◌, ltb, leb, ◌==◌, ◌>>=◌, take, drop, length, get_elem?,
}
use cwnet.Handler.Names.{until_nul}

abbrev pub buf_size : ℕ
buf_size = 256

-- `io_Command` of the serial request.
pub data Command : Type 0 where
  cmd_read cmd_write : Command

-- What `Wait` and GetMsg come back with: Ctrl-C, a message of one of the requests, with what
-- CheckIO and WaitIO say of it and what the device has left in `rxbuf`, or nothing.
pub data Event : Type 0 where
  ctrl_c : Event
  timer_message : (done : Bool) → Event
  serial_message : (done : Bool) (io_error : ℕ) (received : List ℕ) → Event
  no_message : Event

-- What `main` acquires, one within the other.
pub data Resource : Type 0 where
  port serial_request timer_request serial_device timer_device : Resource

abbrev pub code : Resource → ℕ
code port = 0
code serial_request = 1
code timer_request = 2
code serial_device = 3
code timer_device = 4

-- `serial_out` and `timer_out` say whether the requests are with their devices, `written` is what
-- the serial device was given to write.
pub record Session : Type 0 where
  pub command : Command
  pub serial_out : Bool
  pub timer_out : Bool
  pub running : Bool
  pub txbuf : List ℕ
  pub written : List (List ℕ)
  pub held : List Resource

zeros : ℕ → List ℕ
zeros zero = []
zeros (suc n) = 0 ∷ zeros n

-- `strncpy(dst, s, n)`
unfoldable pub strncpy : List ℕ → List ℕ → ℕ → Option (List ℕ)
unfolding zeros
strncpy dst s n = if leb n (length dst) then some (take n (s ++ zeros n) ++ drop n dst) else none

-- `strncat(dst, src, n)`: the end of `dst` and the bytes of `src` must be found in their arrays, and
-- what is written, with its NUL, must stay in `dst`.
unfoldable pub strncat : List ℕ → List ℕ → ℕ → Option (List ℕ)
unfolding until_nul
strncat dst src n =
    let end = length (until_nul dst) in
    let bytes = take n (until_nul src) in
    let readable = leb n (length (until_nul src)) || ltb (length (until_nul src)) (length src) in
    let joined = take end dst ++ bytes ++ 0 ∷ drop (end + length bytes + 1) dst in
    if ltb end (length dst)
    then if readable
      then if leb (end + length bytes + 1) (length dst) then some joined else none
      else none
    else none

abbrev pub prefix : List ℕ
prefix = b'E' ∷ b'C' ∷ b'H' ∷ b'O' ∷ b':' ∷ b' ' ∷ []

-- The read, with its timeout.
unfoldable pub start_read : Session → Session
start_read s = record s { command = cmd_read; serial_out = true; timer_out = true }

-- The write, with the length -1: up to the NUL.
unfoldable pub start_write : List ℕ → Session → Session
unfolding until_nul
start_write txbuf s = record s {
  command = cmd_write;
  serial_out = true;
  txbuf = txbuf;
  written = s.written ++ until_nul txbuf ∷ [];
}

-- case CMD_READ
unfoldable pub on_read : List ℕ → Session → Option Session
unfolding strncpy strncat start_write
on_read rxbuf s = do
  let stopped : Session = record s { timer_out = false }
  first ← get_elem? rxbuf 0
  let answer = (do
    copied ← strncpy s.txbuf prefix buf_size
    txbuf ← strncat copied rxbuf (buf_size - 7)
    some (start_write txbuf stopped))
  if first == b'.' then some (record stopped { running = false }) else answer

-- One pass of the loop. `true` stands for a `break` out of it.
unfoldable pub on_event : Event → Session → Option (Bool × Session)
unfolding on_read start_read
on_event ctrl_c s = some (true, s)
on_event (timer_message false) s = some (false, s)
on_event (timer_message true) s = some (true, record s { timer_out = false })
on_event (serial_message false error received) s = some (false, s)
on_event (serial_message true (suc n) received) s = some (true, record s { serial_out = false })
on_event (serial_message true zero received) s =
    let finished : Session = record s { serial_out = false } in
    elim s.command [
      | cmd_read ↦ on_read received finished >>= λ s'. some (false, s')
      | cmd_write ↦ some (false, start_read finished)
    ]
on_event no_message s = some (false, s)

-- The loop, for the events that come in. `true` says that it has ended.
unfoldable pub echo_loop : List Event → Session → Option (Bool × Session)
unfolding on_event
echo_loop [] s = some (not s.running, s)
echo_loop (e ∷ es) s =
    let next = (do r ← on_event e s; let rest = echo_loop es r.1; if r.0 then some r else rest) in
    if s.running then next else some (true, s)

-- Which resources are granted, and whether SDCMD_SETPARAMS succeeds.
pub record Machine : Type 0 where
  pub grants : Resource → Bool
  pub configures : Bool

-- CloseDevice, DeleteExtIO and DeleteMsgPort, with `none` for what is not held last.
unfoldable pub give_back : Resource → Session → Option Session
give_back r s = elim s.held [
  | [] ↦ none
  | h ∷ rest ↦ if code h == code r then some (record s { held = rest }) else none
]

-- One `if` of `main` with what stands behind it. `some none` stands for a program that still waits.
unfoldable pub with_resource :
    Bool → Resource → (Session → Option (Option Session)) → Session → Option (Option Session)
unfolding give_back
with_resource granted r body s =
    let used = body (record s { held = r ∷ s.held }) >>= λ o. elim o [
      | none ↦ some none
      | some s' ↦ give_back r s' >>= λ s''. some (some s'')
    ] in
    if granted then used else some (some s)

-- The first read, the loop, and the end of the serial request.
unfoldable pub serve : Bool → List Event → Session → Option (Option Session)
unfolding start_read echo_loop
serve configured events s =
    let served = (do
      r ← echo_loop events (start_read (record s { running = true }))
      some (if r.0 then some (record r.1 { serial_out = false }) else none)) in
    if configured then served else some (some s)

unfoldable pub serecho : Machine → List Event → Session → Option (Option Session)
unfolding with_resource serve
serecho m events = with_resource (m.grants port) port (
    with_resource (m.grants serial_request) serial_request (
      with_resource (m.grants timer_request) timer_request (
        with_resource (m.grants serial_device) serial_device
          (with_resource (m.grants timer_device) timer_device (serve m.configures events)))))
