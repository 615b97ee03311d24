-- ===== src/Handler/State.antt =====
-- The state of the handler: the globals of handler.c, the local variables of `entry` that live
-- across the rounds of its loop, and its message port.
use cwnet.Base.{
  ℕ, List, [], ◌∷◌, ◌++◌, Option, none, some, Bool, true, false, ◌>>=◌, if◌then◌else◌, ℤ, get_elem?,
  set, ◌||◌,
}
use cwnet.Handler.Names.{FibName}

pub data TransferState : Type 0 where
  queued ready wrq_sent rrq_sent data_sent error finished : TransferState

-- `fb_curpos` is an index into `fb_bytes`.
pub record FileBuffer : Type 0 where
  pub fb_bytes : List ℕ
  pub fb_curpos : ℕ
  pub fb_nbytes_to_send : ℤ

pub record FileTransfer : Type 0 where
  pub ftx_fname : List ℕ
  pub ftx_state : TransferState
  pub ftx_blknum : ℕ
  pub ftx_error : ℕ
  pub ftx_buffers : List FileBuffer

-- A lock on the queue (`fl_key` is 0, here `none`) or on one file of it.
pub record LinkedLock : Type 0 where
  pub address : ℕ
  pub fl_access : ℕ
  pub fl_key : Option ℕ

-- A pointer to a node of `g_transfers`, or to the field behind its last node.
pub data NodePtr : Type 0 where
  node : ℕ → NodePtr
  list_tail : NodePtr

pub record FileInfo : Type 0 where
  pub disk_key : NodePtr
  pub entry_type : ℕ
  pub protection : ℕ
  pub size : ℕ
  pub file_name : FibName

-- What the internal packet can ask for.
pub data Internal : Type 0 where
  send_next_file send_next_buffer continue_buffer file_finished file_failed buffer_finished :
      Internal

pub record InternalPacket : Type 0 where
  pub dp_type : Internal
  pub dp_arg1 : Option ℕ

-- The packet that the serial request carries.
pub data IoType : Type 0 where
  no_action write_return read_return : IoType

pub record IoPacket : Type 0 where
  pub dp_type : IoType
  pub dp_arg1 : Option ℕ

-- The packets of the clients, with what their arguments point to.
pub data Request : Type 0 where
  is_filesystem : Request
  find_output : List ℕ → Request
  write : ℕ → List ℕ → Request
  end_file : ℕ → Request
  locate_object : ℕ → List ℕ → ℕ → Request
  free_lock : Option ℕ → Request
  examine_object : ℕ → FileInfo → Request
  examine_next : ℕ → FileInfo → Request
  die : Request
  unknown : Request

-- A packet on the port: of a client, the one internal packet, the serial or the timer request.
pub data Message : Type 0 where
  client : Request → Message
  own serial timer : Message

-- How a client's packet was returned: `dp_Res1`, `dp_Res2` and what was written to its arguments.
pub data Result : Type 0 where
  number : ℕ → Result
  lock_pointer : ℕ → Result

pub record Reply : Type 0 where
  pub request : Request
  pub res1 : Result
  pub res2 : ℕ
  pub handle : Option ℕ
  pub info : Option FileInfo

abbrev pub dosfalse : Result
dosfalse = number 0

-- -1 as a ULONG
abbrev pub dostrue : Result
dostrue = number 0xffff_ffff

pub record Handler (N : Type 0) : Type 0 where
  pub running : Bool
  pub busy : Bool
  pub transfers : List FileTransfer
  pub locks : List LinkedLock
  pub lock_blocks : ℕ
  pub requests : ℕ
  pub outpkt : InternalPacket
  pub iopkt1 : IoPacket
  pub port : List Message
  pub replies : List Reply
  pub ftx : Option ℕ
  pub dn_task : Bool
  pub net : N

pub is_own : Message → Bool
is_own own = true
is_own (client r) = false
is_own serial = false
is_own timer = false

-- Is the internal packet on the port?
unfoldable pub holds_own : List Message → Bool
unfolding is_own
holds_own [] = false
holds_own (m ∷ ms) = is_own m || holds_own ms

is_serial : Message → Bool
is_serial serial = true
is_serial (client r) = false
is_serial own = false
is_serial timer = false

is_timer : Message → Bool
is_timer timer = true
is_timer (client r) = false
is_timer serial = false
is_timer own = false

drop_message : (Message → Bool) → List Message → List Message
drop_message test [] = []
drop_message test (m ∷ ms) = let rest = drop_message test ms in if test m then rest else m ∷ rest

-- `WaitIO` takes the returned request off the port.
unfoldable pub without_serial : List Message → List Message
unfolding drop_message is_serial
without_serial = drop_message is_serial

unfoldable pub without_timer : List Message → List Message
unfolding drop_message is_timer
without_timer = drop_message is_timer

module _ {N : Type 0} where
  -- The one message of `outpkt` is put on the port. Where it is there already, PutMsg ties the list
  -- of messages to itself, which is undefined behaviour.
  unfoldable pub send_internal_packet : Internal → Option ℕ → Handler N → Option (Handler N)
  unfolding holds_own
  send_internal_packet type arg h =
      if holds_own h.port
      then none
      else some (record h {
        outpkt = record { dp_type = type; dp_arg1 = arg };
        port = h.port ++ own ∷ [];
      })

  unfoldable pub return_dos_packet : Request → Result → ℕ → Handler N → Handler N
  return_dos_packet p res1 res2 h = record h {
    replies =
        h.replies
        ++ (record { request = p; res1 = res1; res2 = res2; handle = none; info = none }) ∷ [];
  }

  -- `ftx->...`
  unfoldable pub transfer : Handler N → ℕ → Option FileTransfer
  transfer h i = get_elem? h.transfers i

  unfoldable pub set_transfer : ℕ → FileTransfer → Handler N → Handler N
  set_transfer i f h = record h { transfers = set h.transfers i f }

  -- The transfer `i` has failed: its state and error code are set.
  unfoldable pub set_error : ℕ → ℕ → Handler N → Option (Handler N)
  unfolding transfer set_transfer
  set_error i code h = do
    f ← transfer h i
    some (set_transfer i (record f { ftx_state = error; ftx_error = code }) h)

  -- As above, with `g_busy = 0` and the internal packet ACTION_FILE_FAILED.
  unfoldable pub fail_transfer : ℕ → ℕ → Handler N → Option (Handler N)
  unfolding set_error send_internal_packet
  fail_transfer i code h = do
    h' ← set_error i code h
    send_internal_packet file_failed (some i) (record h' { busy = false })
