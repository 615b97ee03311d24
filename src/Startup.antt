-- ===== src/Startup.antt =====
-- netio.c and handler.c: `netio_init` and `netio_exit`, and what `entry` does before and after its
-- main loop, with what the operating system grants as a parameter; the loop is that of Handler.Loop.
pub mod Attempt
pub mod Balance
use cwnet.Base.{ℕ, ◌≡◌, List, [], ◌∷◌, Option, none, some, Bool, true, false, if◌then◌else◌, ◌==◌}
use cwnet.Slip.{slip_end}
use cwnet.Handler.State.{Handler, Message, send_next_file, no_action}
use cwnet.Handler.Network.{NetIo}
use cwnet.Handler.Loop.{main_loop}

-- What is acquired, with the requests that belong to the devices.
pub data Resource : Type 0 where
  log_port console serial_request timer_request serial_device timer_device packet_buffer : Resource

abbrev pub code : Resource → ℕ
code log_port = 0
code console = 1
code serial_request = 2
code timer_request = 3
code serial_device = 4
code timer_device = 5
code packet_buffer = 6

-- The packets of `entry`, `iopkt1` and `iopkt2`, that completed requests stand for.
pub data IoName : Type 0 where
  io_first io_second : IoName

-- Whether each of the resources is granted, and whether SDCMD_SETPARAMS succeeds.
pub record Machine : Type 0 where
  pub grants : Resource → Bool
  pub configures : Bool

-- The fields of the requests that are set at the start, the task of the device node and the answer
-- to the startup packet.
pub record Boot : Type 0 where
  pub held : List Resource
  pub serial_name : Option IoName
  pub timer_name : Option IoName
  pub xdisabled : Bool
  pub term_array : List ℕ
  pub dn_task : Bool
  pub started : Bool

-- `none` is the release of something that is not held.
abbrev pub M : Type 0 → Type 0
M A = Boot → Option (A × Boot)

infixl 5 ◌>>=◌ ◌>>◌
abbrev pub ◌>>=◌ : {A B : Type 0} → M A → (A → M B) → M B
◌>>=◌ m f s = elim (m s) [ none ↦ none | some (a, s') ↦ f a s' ]

abbrev pub ◌>>◌ : {B : Type 0} → M (Unit {0}) → M B → M B
m >> k = m >>= λ _. k

abbrev pub pure : {A : Type 0} → A → M A
pure a s = some (a, s)

-- CreateExtIO, OpenDevice, CreateMsgPort, Open and create_buffer.
unfoldable pub acquire : Machine → Resource → M Bool
acquire m r s = if m.grants r then some (true, record s { held = r ∷ s.held }) else some (false, s)

abbrev pub remove : Resource → List Resource → Option (List Resource)
remove r [] = none
remove r (h ∷ held) =
    if code h == code r
    then some held
    else elim (remove r held) [ none ↦ none | some rest ↦ some (h ∷ rest) ]

-- DeleteExtIO, CloseDevice, DeleteMsgPort, Close and delete_buffer.
unfoldable pub release : Resource → M (Unit {0})
release r s = elim (remove r s.held) [
  | none ↦ none
  | some rest ↦ some (tt, record s { held = rest })
]

unfoldable pub set_serial_name : IoName → M (Unit {0})
set_serial_name name s = some (tt, record s { serial_name = some name })

unfoldable pub set_timer_name : IoName → M (Unit {0})
set_timer_name name s = some (tt, record s { timer_name = some name })

-- The parameters, and the request that hands them to the device.
unfoldable pub configure : Machine → M Bool
configure m s = some (
  m.configures,
  record s {
    xdisabled = true;
    term_array =
        slip_end ∷ slip_end ∷ slip_end ∷ slip_end ∷ slip_end ∷ slip_end ∷ slip_end ∷ slip_end ∷ [];
  },
)

module _ (m : Machine) where
  -- The innermost `if`, with what is given back if the timer is not opened.
  unfoldable pub open_timer : M Bool
  open_timer = do
    opened ← acquire m timer_device
    if opened
        then pure true
        else (do release serial_device; release timer_request; release serial_request; pure false)

  unfoldable pub configure_serial : M Bool
  unfolding open_timer
  configure_serial = do
    configured ← configure m
    if configured
        then open_timer
        else (do release serial_device; release timer_request; release serial_request; pure false)

  unfoldable pub open_serial : M Bool
  unfolding configure_serial
  open_serial = do
    opened ← acquire m serial_device
    if opened
        then configure_serial
        else (do release timer_request; release serial_request; pure false)

  unfoldable pub create_timer_request : IoName → M Bool
  unfolding open_serial
  create_timer_request timer_pkt = do
    made ← acquire m timer_request
    if made
        then (set_timer_name timer_pkt >> open_serial)
        else (release serial_request >> pure false)

  unfoldable pub netio_init : IoName → IoName → M Bool
  unfolding create_timer_request
  netio_init serial_pkt timer_pkt = do
    made ← acquire m serial_request
    if made then (set_serial_name serial_pkt >> create_timer_request timer_pkt) else pure false

unfoldable pub netio_exit : M (Unit {0})
netio_exit = do
  release timer_device
  release serial_device
  release timer_request
  release serial_request

-- The handler's task in the device node, and the startup packet returned.
unfoldable pub take_startup_packet : M (Unit {0})
take_startup_packet s = some (tt, record s { dn_task = true; started = true })

-- `entry` around its main loop: a failure goes to the label that gives back what there is. The loop
-- gets `messages` on its port, in that order, and `rounds` rounds; `line` is the network module's
-- state at the start.
module _ (m : Machine) (net : NetIo) (alloc_ok : ℕ → Bool) (rounds : ℕ) (messages : List Message)
    (line : net.Net) where
  -- The variables as the loop finds them. The type of `outpkt` is not set before it is sent.
  abbrev pub initial : Handler net.Net
  initial = record {
    running = true;
    busy = false;
    transfers = [];
    locks = [];
    lock_blocks = 0;
    requests = 0;
    outpkt = record { dp_type = send_next_file; dp_arg1 = none };
    iopkt1 = record { dp_type = no_action; dp_arg1 = none };
    port = messages;
    replies = [];
    ftx = none;
    dn_task = true;
    net = line;
  }

  -- The loop, with `none` if it has not ended.
  unfoldable pub run_loop : M (Unit {0})
  run_loop s = elim (main_loop net alloc_ok rounds initial) [
    | none ↦ none
    | some h ↦ if h.running then none else some (tt, record s { dn_task = h.dn_task })
  ]

  unfoldable pub with_packet_buffer : M (Unit {0})
  with_packet_buffer = do
    made ← acquire m packet_buffer
    if made then (run_loop >> release packet_buffer) else pure tt

  unfoldable pub with_netio : M (Unit {0})
  with_netio = do
    ok ← netio_init m io_first io_second
    if ok then (with_packet_buffer >> netio_exit) else pure tt

  unfoldable pub with_console : M (Unit {0})
  with_console = do
    opened ← acquire m console
    if opened then (with_netio >> release console) else pure tt

  unfoldable pub entry : M (Unit {0})
  entry = do
    take_startup_packet
    made ← acquire m log_port
    if made then (with_console >> release log_port) else pure tt
