-- ===== src/Net/State.antt =====
-- util.c (create_buffer, delete_buffer) and the device routines of netio.c.
use cwnet.Base.{
  ℕ, suc, ◌-◌, ◌^◌, ◌≡◌, List, [], ◌∷◌, ◌++◌, Option, none, some, Bool, true, false, if◌then◌else◌,
  ◌==◌, length, ℤ, pos, negsuc,
}
use cwnet.Protocol.{error_no_free_store, error_io_not_finished}
use cwnet.Slip.{Buffer, max_buffer_size}
use cwnet.Slip.Encode.Whole.{contents}
use cwnet.Packet.{ByteOrder}

pub data Command : Type 0 where
  no_command cmd_read cmd_write : Command

-- The fields of the serial request that the program uses; `pending` says that it was sent and has
-- not been returned. `io_data` is the Buffer whose block the device was given.
pub record SerialRequest : Type 0 where
  pub io_command : Command
  pub eof_mode : Bool
  pub io_length : ℕ
  pub io_data : ℕ
  pub io_actual : ℕ
  pub io_error : ℤ
  pub pending : Bool

pub record TimerRequest : Type 0 where
  pub tv_secs : ℕ
  pub running : Bool

-- What the operating system does, which the program does not implement: whether the n-th request
-- for memory is met, what the memory holds, and how a synchronous request ends.
pub record System : Type 0 where
  pub order : ByteOrder
  pub alloc_ok : ℕ → Bool
  pub junk : ℕ → List ℕ
  pub junk_size : (n : ℕ) → length (junk n) ≡ max_buffer_size
  pub do_io : SerialRequest → ℤ
  pub do_io_actual : SerialRequest → ℕ

-- A Buffer's address is the number of the request that it was allocated by. `wire` records the
-- frames as they were when a write request was sent.
pub record Net : Type 0 where
  pub errno : ℕ
  pub cell : ℕ → Option Buffer
  pub next : ℕ
  pub sreq : SerialRequest
  pub treq : TimerRequest
  pub wire : List (List ℕ)

abbrev pub M {ℓ} : Type ℓ → Type ℓ
M A = Net → Option (A × Net)

infixl 5 ◌>>=◌ ◌>>◌
abbrev pub ◌>>=◌ {ℓ κ} : {A : Type ℓ} {B : Type κ} → M A → (A → M B) → M B
◌>>=◌ m f s = elim (m s) [ none ↦ none | some (a, s') ↦ f a s' ]

abbrev pub ◌>>◌ {ℓ} : {B : Type ℓ} → M (Unit {0}) → M B → M B
m >> k = m >>= λ _. k

abbrev pub pure {ℓ} : {A : Type ℓ} → A → M A
pure a s = some (a, s)

abbrev pub lift {ℓ} : {A : Type ℓ} → Option A → M A
lift o s = elim o [ none ↦ none | some a ↦ some (a, s) ]

abbrev pub update : (ℕ → Option Buffer) → ℕ → Option Buffer → ℕ → Option Buffer
update cell a v b = if a == b then v else cell b

unfoldable pub set_errno : ℕ → M (Unit {0})
set_errno e s = some (tt, record s { errno = e })

-- `buffer->...`
unfoldable pub deref : ℕ → M Buffer
deref a s = elim (s.cell a) [ none ↦ none | some b ↦ some (b, s) ]

unfoldable pub assign : ℕ → Buffer → M (Unit {0})
assign a b s = elim (s.cell a) [
  | none ↦ none
  | some old ↦ some (tt, record s { cell = update s.cell a (some b) })
]

unfoldable pub delete_buffer : ℕ → M (Unit {0})
delete_buffer a s = elim (s.cell a) [
  | none ↦ none
  | some old ↦ some (tt, record s { cell = update s.cell a none })
]

abbrev pub or_null {ℓ} : {A : Type ℓ} → A → (ℕ → M A) → Option ℕ → M A
or_null null body none = set_errno error_no_free_store >> pure null
or_null null body (some a) = body a

abbrev pub netio_timeout : ℕ
netio_timeout = 10

-- The timer request that accompanies an asynchronous one.
start_timer : M (Unit {0})
start_timer s = some (tt, record s { treq = record { tv_secs = netio_timeout; running = true } })

abbrev pub to_ulong : ℤ → ℕ
to_ulong (pos n) = n
to_ulong (negsuc n) = 2 ^ 32 - 1 - n

abbrev pub is_ok : ℤ → Bool
is_ok (pos n) = n == 0
is_ok (negsuc n) = false

send_io : SerialRequest → M (Unit {0})
send_io r s = some (tt, record s { sreq = record r { pending = true } })

log_frame : Buffer → M (Unit {0})
log_frame b s = some (tt, record s { wire = s.wire ++ contents b ∷ [] })

get_sreq : M SerialRequest
get_sreq s = some (s.sreq, s)

put_sreq : SerialRequest → M (Unit {0})
put_sreq r s = some (tt, record s { sreq = r })

module _ (sys : System) where
  -- NULL is `none`. Every call asks for MAX_BUFFER_SIZE bytes.
  unfoldable pub create_buffer : M (Option ℕ)
  create_buffer s =
      if sys.alloc_ok s.next
      then some (
        some s.next,
        record s {
          cell = update s.cell s.next (some (record { b_addr = sys.junk s.next; b_size = 0 }));
          next = suc s.next;
        },
      )
      else some (none, record s { next = suc s.next })

  -- `if ((a = create_buffer(...)) == NULL) { g_netio_errno = ...; return null; }` and then `body a`.
  unfoldable pub with_buffer {ℓ} : {A : Type ℓ} → A → (ℕ → M A) → M A
  with_buffer null body = create_buffer >>= or_null null body

  -- `DoIO(sreq)`: the request has been returned when the call returns.
  do_io : SerialRequest → M ℤ
  unfolding put_sreq
  do_io r = do
    put_sreq (record r { pending = false; io_error = sys.do_io r; io_actual = sys.do_io_actual r })
    pure (sys.do_io r)

  unfoldable pub send_slip_frame : ℕ → Bool → M Bool
  unfolding get_sreq log_frame send_io start_timer set_errno do_io deref
  send_slip_frame frame async = do
    f ← deref frame
    r ← get_sreq
    let r' : SerialRequest = record r {
      eof_mode = false;
      io_command = cmd_write;
      io_length = f.b_size;
      io_data = frame;
    }
    log_frame f
    if async
        then (do send_io r'; start_timer; set_errno 0; pure true)
        else (do error ← do_io r'; set_errno (to_ulong error); pure (is_ok error))

  unfoldable pub recv_slip_frame : ℕ → Bool → M Bool
  unfolding get_sreq send_io start_timer set_errno do_io deref assign
  recv_slip_frame frame async = do
    r ← get_sreq
    let r' : SerialRequest = record r {
      eof_mode = true;
      io_command = cmd_read;
      io_length = max_buffer_size;
      io_data = frame;
    }
    if async then (do send_io r'; start_timer; set_errno 0; pure true) else (do
      error ← do_io r'
      set_errno (to_ulong error)
      if is_ok error
          then (do
            f ← deref frame
            assign frame (record f { b_size = sys.do_io_actual r' })
            pure true)
          else pure false)

-- `CheckIO` and `WaitIO`; -1 is an operation that has not finished.
unfoldable pub netio_get_status : M ℤ
netio_get_status s =
    if s.sreq.pending
    then some (negsuc 0, record s { errno = error_io_not_finished })
    else some (s.sreq.io_error, s)

unfoldable pub netio_stop_timer : M (Unit {0})
netio_stop_timer s = some (tt, record s { treq = record (s.treq) { running = false } })

unfoldable pub netio_abort : M (Unit {0})
netio_abort s = some (tt, record s { sreq = record (s.sreq) { pending = false } })
