-- ===== src/Minitftp/Steps.antt =====
-- minitftp.c: what the statements of the loop do, on any host that keeps its contract.
use cwnet.Base.{
  ℕ, zero, suc, ◌+◌, ◌≡◌, ◌≤◌, ◌<◌, refl, List, [], ◌∷◌, Option, none, some, Bool, true, false,
  length, arith, ℤ, pos, length-append, length-drop, get_elem?, take, drop, take-append,
}
use cwnet.Protocol.{tftp_max_data_size}
use cwnet.Packet.{ByteOrder, load16, word16, ntohs}
use cwnet.Minitftp.Packets.{max_pkt_size, get_opcode, get_blknum}
use cwnet.Minitftp.Host.{done, Host, Locals, M, pure, say, fail, Message, branch}
use cwnet.Minitftp.Command.{overwrite, check_answer, set_pkt, set_buffer, keep_packet, keep_block}
use cwnet.Minitftp.Runs.{
  RunsIf, runs_bind, runs_pure, runs_lift, runs_get, runs_say, runs_fail, runs_if, runs_after,
}

-- The two arrays of `main`.
pub record Sized {W : Type 0} (l : Locals W) : Type 0 where
  pub pkt_size : length l.pkt ≡ max_pkt_size
  pub buffer_size : length l.buffer ≡ tftp_max_data_size

-- Only the error flag and the output change, and the flag is never reset.
pub record Same {W : Type 0} (l l' : Locals W) : Type 0 where
  pub world_eq : l'.world ≡ l.world
  pub pkt_eq : l'.pkt ≡ l.pkt
  pub buffer_eq : l'.buffer ≡ l.buffer
  pub flag : l'.error ≡ false → l.error ≡ false

abbrev Quiet : {W : Type 0} → Bool → M W (Unit {0}) → Locals W → Type 0
Quiet may m l = RunsIf may m l (λ _ l'. Same l l')

pub say-Same : {may : Bool} {W : Type 0} (m : Message) (l : Locals W) → Quiet may (say m) l
say-Same m l =
    runs_say m (record { world_eq = refl; pkt_eq = refl; buffer_eq = refl; flag = λ e. e })

fail-Same : {may : Bool} {W : Type 0} (m : Message) (l : Locals W) → Quiet may (fail m) l
fail-Same m l =
    runs_fail m (record { world_eq = refl; pkt_eq = refl; buffer_eq = refl; flag = λ e. cc e })

-- A statement that only reports a failure.
pub unless_failed :
    {may : Bool} {W : Type 0} (ok : Bool) (m : Message) (l : Locals W)
    → RunsIf may
        (branch ok (pure tt) (fail m))
        l
        (λ _ l'. Same l l' × (l'.error ≡ false → ok ≡ true))
unless_failed ok m l =
    runs_if ok _ _
      (λ e.
        runs_pure tt
          (record { world_eq = refl; pkt_eq = refl; buffer_eq = refl; flag = λ e. e }, λ _. e))
      (λ e.
        runs_fail m (
          record { world_eq = refl; pkt_eq = refl; buffer_eq = refl; flag = λ e. cc e },
          λ f. cc f,
        ))

-- A statement that reports a success or a failure.
pub report_result :
    {may : Bool} {W : Type 0} (ok : Bool) (m m' : Message) (l : Locals W)
    → RunsIf may
        (branch ok (say m) (fail m'))
        l
        (λ _ l'. Same l l' × (l'.error ≡ false → ok ≡ true))
report_result ok m m' l =
    runs_if ok _ _
      (λ e.
        runs_say m
          (record { world_eq = refl; pkt_eq = refl; buffer_eq = refl; flag = λ e. e }, λ _. e))
      (λ e.
        runs_fail m' (
          record { world_eq = refl; pkt_eq = refl; buffer_eq = refl; flag = λ e. cc e },
          λ f. cc f,
        ))

length-overwrite :
    (array bytes : List ℕ) (n : ℕ)
    → length array ≡ n
    → length bytes ≤ n
    → length (overwrite array bytes) ≡ n
length-overwrite array bytes n e h =
    omega (arith, length-append bytes (drop (length bytes) array), length-drop (length bytes) array)

get_elem?_inside :
    (p : ℕ) (block : List ℕ) → p < length block → (x : ℕ) × (get_elem? block p ≡ some x)
get_elem?_inside p [] h = absurd (omega arith)
get_elem?_inside zero (x ∷ xs) h = (x, refl)
get_elem?_inside (suc p) (x ∷ xs) h = get_elem?_inside p xs (omega arith)

load16-some :
    (order : ByteOrder) (p a b : ℕ) (block : List ℕ)
    → get_elem? block p ≡ some a
    → get_elem? block (p + 1) ≡ some b
    → load16 order block p ≡ some (word16 order a b)
load16-some order p a b block e f = rw (e, f)

get_opcode-some :
    (order : ByteOrder) (w : ℕ) (pkt : List ℕ)
    → load16 order pkt 0 ≡ some w
    → get_opcode order pkt ≡ some (ntohs order w)
unfolding get_opcode
get_opcode-some order w pkt e = rw (e, get_opcode)

get_blknum-some :
    (order : ByteOrder) (w : ℕ) (pkt : List ℕ)
    → load16 order pkt 2 ≡ some w
    → get_blknum order pkt ≡ some (ntohs order w)
unfolding get_blknum
get_blknum-some order w pkt e = rw (e, get_blknum)

-- What `pkt` holds is looked at without leaving the array.
pub get_opcode_inside :
    (order : ByteOrder) (pkt : List ℕ)
    → length pkt ≡ max_pkt_size
    → (w : ℕ) × (get_opcode order pkt ≡ some w)
get_opcode_inside order pkt size =
    let (a, e) = get_elem?_inside 0 pkt (omega arith) in
    let (b, f) = get_elem?_inside 1 pkt (omega arith) in
    (ntohs order (word16 order a b), get_opcode-some order _ pkt (load16-some order 0 a b pkt e f))

get_blknum_inside :
    (order : ByteOrder) (pkt : List ℕ)
    → length pkt ≡ max_pkt_size
    → (w : ℕ) × (get_blknum order pkt ≡ some w)
get_blknum_inside order pkt size =
    let (a, e) = get_elem?_inside 2 pkt (omega arith) in
    let (b, f) = get_elem?_inside 3 pkt (omega arith) in
    (ntohs order (word16 order a b), get_blknum-some order _ pkt (load16-some order 2 a b pkt e f))

module _ {may : Bool} (host : Host) where
  pub check_answer-Same :
      (blknum : ℕ) (l : Locals host.State)
      → length l.pkt ≡ max_pkt_size
      → Quiet may (check_answer host blknum) l
  unfolding check_answer
  check_answer-Same blknum l size =
      let (opcode, e) = get_opcode_inside host.order l.pkt size in
      let (acked, f) = get_blknum_inside host.order l.pkt size in
      runs_get _ (
        runs_lift (get_opcode host.order l.pkt) _ e (
          runs_if _ _ _
            (λ _.
              runs_lift (get_blknum host.order l.pkt) _ f
                (runs_if _ _ _ (λ _. say-Same _ l) (λ _. fail-Same _ l)))
            (λ _. runs_if _ _ _ (λ _. fail-Same _ l) (λ _. fail-Same _ l))))

pub set_pkt_lem :
    {W : Type 0} (bytes : List ℕ) (l : Locals W)
    → set_pkt bytes l ≡ done (tt, record l { pkt = overwrite l.pkt bytes })
unfolding set_pkt
set_pkt_lem bytes l = refl

pub set_buffer_lem :
    {W : Type 0} (bytes : List ℕ) (l : Locals W)
    → set_buffer bytes l ≡ done (tt, record l { buffer = overwrite l.buffer bytes })
unfolding set_buffer
set_buffer_lem bytes l = refl

pub keep_packet-Sized :
    {may : Bool} {W : Type 0} (o : Option (List ℕ)) (l : Locals W)
    → ((bytes : List ℕ) → o ≡ some bytes → length bytes ≤ max_pkt_size)
    → Sized l
    → RunsIf may (keep_packet o) l (λ _ l'. Sized l' × (l'.world ≡ l.world) × (l'.error ≡ l.error))
unfolding keep_packet
keep_packet-Sized none l short size = runs_pure _ (size, refl, refl)
keep_packet-Sized (some bytes) l short size = runs_after (set_pkt bytes) _ (set_pkt_lem bytes l) (
    runs_pure _ (
      record {
        pkt_size = length-overwrite l.pkt bytes max_pkt_size size.pkt_size (short bytes refl);
        buffer_size = size.buffer_size;
      },
      refl,
      refl,
    ))

-- The result of a read, with the bytes that stand in the buffer then.
pub data Read {W : Type 0} (o : Option (List ℕ)) (l l' : Locals W) : ℤ → Type 0 where
  failed : (r : ℤ) → l'.error ≡ true → Read o l l' r
  given :
      (r : ℤ) (bytes : List ℕ)
      → o ≡ some bytes
      → r ≡ pos (length bytes)
      → take (length bytes) l'.buffer ≡ bytes
      → l'.error ≡ l.error
      → Read o l l' r

pub keep_block-Read :
    {may : Bool} {W : Type 0} (o : Option (List ℕ)) (l : Locals W)
    → ((bytes : List ℕ) → o ≡ some bytes → length bytes ≤ tftp_max_data_size)
    → Sized l
    → RunsIf may (keep_block o) l (λ r l'. Sized l' × (l'.world ≡ l.world) × Read o l l' r)
unfolding keep_block
keep_block-Read none l short size =
    runs_bind
      (runs_fail _ {P = λ _ l'. Sized l' × (l'.world ≡ l.world) × (l'.error ≡ true)}
        (record { pkt_size = size.pkt_size; buffer_size = size.buffer_size }, refl, refl))
      (λ _ l' h. runs_pure _ (h.0, h.1, failed _ h.2))
keep_block-Read (some bytes) l short size =
    runs_after (set_buffer bytes) _ (set_buffer_lem bytes l) (
      runs_pure _ (
        record {
          pkt_size = size.pkt_size;
          buffer_size =
              length-overwrite l.buffer bytes tftp_max_data_size size.buffer_size
                (short bytes refl);
        },
        refl,
        given _ bytes refl refl (take-append bytes (drop (length bytes) l.buffer)) refl,
      ))
