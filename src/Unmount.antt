-- ===== src/Unmount.antt =====
-- unmount.c, the command that removes a handler: it takes the device off the DOS list, sends the
-- handler ACTION_DIE and frees what the device node holds; and the listing of the DOS list.
pub mod Search
pub mod Removal
use cwnet.Base.{
  ℕ, ◌+◌, ◌-◌, List, [], ◌∷◌, ◌++◌, map, Option, none, some, Bool, true, false, ◌&&◌, not,
  if◌then◌else◌, leb, ◌==◌, ◌>>=◌, take, length, get_elem?,
}
use cwnet.Handler.Names.{bcpl_to_c_str, same_bytes}
use cwnet.Handler.State.{Handler, client, die}
use cwnet.Handler.Network.{NetIo}
use cwnet.Handler.Loop.{main_loop}

-- The process behind a node: the handler of this repository, none (dn_Task is NULL), or another
-- one, which clears dn_Task on ACTION_DIE or does not.
pub data Process : Type 0 where
  net_handler idle : Process
  other : (quits : Bool) → Process

-- Where a BPTR of the node points to.
pub data Place : Type 0 where
  null rom ram : Place

-- A node with its address, the bytes from `dol_Name` on (the length first) and the rest of it.
pub record DosList : Type 0 where
  pub address : ℕ
  pub dol_name : List ℕ
  pub dol_type : ℕ
  pub process : Process
  pub seg_list : Place
  pub handler_name : Place

pub data DolType : Type 0 where
  device assign volume : DolType

abbrev pub dol_types : List DolType
dol_types = device ∷ assign ∷ volume ∷ []

-- What is freed in the end, with the address of the node.
pub data Block : Type 0 where
  segments name_of_handler name_of_device device_node : ℕ → Block

-- The DOS list, the handler, how many message ports and packets the command holds, what it has
-- freed and what it has listed.
pub record System (N : Type 0) : Type 0 where
  pub dev_info : List DosList
  pub handler : Handler N
  pub ports : ℕ
  pub packets : ℕ
  pub freed : List Block
  pub shown : List (List ℕ × DolType)

abbrev pub return_ok : ℕ
return_ok = 0

abbrev pub return_error : ℕ
return_error = 10

abbrev pub return_fail : ℕ
return_fail = 20

abbrev to_lower : ℕ → ℕ
to_lower c = if leb b'A' c && leb c b'Z' then c + 32 else c

-- `strcasecmp(argv[1], "list") == 0`
unfoldable pub is_list : List ℕ → Bool
unfolding same_bytes
is_list arg = same_bytes (map to_lower arg) (b'l' ∷ b'i' ∷ b's' ∷ b't' ∷ [])

-- The loop of the listing. A type that is not in `dol_types` is an access outside it.
unfoldable pub list_devices : List DosList → Option (List (List ℕ × DolType))
list_devices [] = some []
list_devices (d ∷ ds) = do
  name ← bcpl_to_c_str d.dol_name
  kind ← get_elem? dol_types d.dol_type
  rest ← list_devices ds
  some ((name, kind) ∷ rest)

-- The comparison of a node's name with `devname` less its last byte. The length byte is a signed
-- char, which can be equal to -1, the `devnlen` of an empty argument.
unfoldable pub has_name : List ℕ → List ℕ → Option Bool
unfolding same_bytes
has_name devname [] = none
has_name devname (n ∷ chars) =
    let compared =
      if leb n (length chars) then some (same_bytes (take n chars) (take n devname)) else none in
    if leb 128 n
    then (if length devname == 0 && n == 255 then none else some false)
    else if n + 1 == length devname
    then compared
    else some false

-- The loop that takes the node off the list: the node, if there is one, and the list behind it.
unfoldable pub remove_device : List ℕ → List DosList → Option (Option DosList × List DosList)
unfolding has_name
remove_device devname [] = some (none, [])
remove_device devname (d ∷ ds) = do
  found ← has_name devname d.dol_name
  let rest = remove_device devname ds >>= λ r. some (r.0, d ∷ r.1)
  if found then some (some d, ds) else rest

-- UnLoadSeg and the calls of FreeVec.
unfoldable pub blocks_of : DosList → List Block
blocks_of d =
    elim d.seg_list [ null ↦ [] | rom ↦ [] | ram ↦ segments d.address ∷ [] ]
    ++ elim d.handler_name [ null ↦ [] | rom ↦ [] | ram ↦ name_of_handler d.address ∷ [] ]
    ++ name_of_device d.address ∷ device_node d.address ∷ []

-- `port_ok` and `pkt_ok` say whether CreateMsgPort and AllocVec have memory; `rounds` is how many
-- rounds of its main loop the handler gets until the command looks at dn_Task.
module _ (net : NetIo) (alloc_ok : ℕ → Bool) (rounds : ℕ) (port_ok pkt_ok : Bool) where
  open net use {Net}

  -- PutMsg of ACTION_DIE, and the wait for the reply. A PutMsg to NULL is a fault.
  unfoldable pub deliver_die : Process → System Net → Option (Process × System Net)
  deliver_die net_handler s =
      let h = s.handler in
      let told =
        main_loop net alloc_ok rounds (record h { port = h.port ++ client die ∷ [] }) >>= λ h'.
        some (net_handler, record s { handler = h' }) in
      if h.dn_task then told else none
  deliver_die idle s = none
  deliver_die (other quits) s = some (if quits then idle else other quits, s)

  -- The branch with a packet, and its release.
  unfoldable pub with_packet : Process → System Net → Option (Process × System Net)
  unfolding deliver_die
  with_packet p s = do
    told ← deliver_die p (record s { packets = s.packets + 1 })
    some (told.0, record told.1 { packets = told.1.packets - 1 })

  -- The branch with a port, and its release.
  unfoldable pub with_port : Process → System Net → Option (Process × System Net)
  unfolding with_packet
  with_port p s = do
    let asked = with_packet p s
    sent ← if pkt_ok then asked else some (p, s)
    some (sent.0, record sent.1 { ports = sent.1.ports - 1 })

  unfoldable pub send_die : Process → System Net → Option (Process × System Net)
  unfolding with_port
  send_die p s =
      let asked = with_port p (record s { ports = s.ports + 1 }) in
      if port_ok then asked else some (p, s)

  -- `dn->dn_Task != NULL`
  unfoldable pub has_task : Process → System Net → Bool
  has_task net_handler s = s.handler.dn_task
  has_task idle s = false
  has_task (other quits) s = true

  -- What is done with the node that was found.
  unfoldable pub dismiss : DosList → System Net → Option (ℕ × System Net)
  unfolding send_die has_task
  dismiss d s = do
    sent ← send_die d.process s
    let (p, s') = sent
    some (
        if has_task p s'
        then (return_fail, s')
        else (return_ok, record s' { freed = s'.freed ++ blocks_of d }))

  unfoldable pub unmount : List ℕ → System Net → Option (ℕ × System Net)
  unfolding dismiss remove_device
  unmount devname s = do
    found ← remove_device devname s.dev_info
    let s' = record s { dev_info = found.1 }
    elim found.0 [ none ↦ some (return_error, s') | some d ↦ dismiss d s' ]

  -- `main`, for the arguments behind the name of the command.
  unfoldable pub unmount_main : List (List ℕ) → System Net → Option (ℕ × System Net)
  unfolding unmount is_list list_devices
  unmount_main [] s = some (return_error, s)
  unmount_main (arg ∷ []) s =
      let listed = list_devices s.dev_info >>= λ l. some (return_ok, record s { shown = l }) in
      let unmounted = unmount arg s in if is_list arg then listed else unmounted
  unmount_main (arg ∷ another ∷ rest) s = some (return_error, s)
