-- ===== src/Minitftp/Command.antt =====
-- minitftp.c: the functions that send and receive a packet, and `main` with its loop.
use cwnet.Base.{
  ℕ, zero, suc, ◌+◌, ◌-◌, ◌%◌, ◌^◌, List, [], ◌++◌, Option, none, some, Bool, true, false, not,
  ◌&&◌, if◌then◌else◌, ◌==◌, ltb, length, drop, ℤ, pos, negsuc,
}
use cwnet.Protocol.{tftp_max_data_size, op_wrq, op_ack, op_error}
use cwnet.Minitftp.Packets.{
  max_pkt_size, get_basename, request_packet, data_packet, get_opcode, get_blknum,
}
use cwnet.Minitftp.Host.{
  Outcome, done, await, Host, Locals, M, ◌>>=◌, ◌>>◌, pure, lift, branch, say, fail, call, release,
  name_too_long, sent_request, not_sent, received, acked_request, read_failed, block_not_sent,
  block_not_received, block_acked, wrong_block, error_packet, unknown_packet, transmitted,
  error_answer, unknown_answer, not_received, no_addresses, no_socket, no_file,
}

-- An int as a uint16_t.
abbrev pub to_uint16 : ℤ → ℕ
to_uint16 (pos n) = n % 2 ^ 16
to_uint16 (negsuc n) = 2 ^ 16 - 1 - n % 2 ^ 16

abbrev pub is_full : ℤ → Bool
is_full (pos n) = n == tftp_max_data_size
is_full (negsuc n) = false

-- The bytes that a call wrote at the front of an array.
abbrev pub overwrite : List ℕ → List ℕ → List ℕ
overwrite array bytes = bytes ++ drop (length bytes) array

-- The variables, as the statements read and assign them.
unfoldable pub get : {W : Type 0} → M W (Locals W)
get l = done (l, l)

unfoldable pub set_pkt : {W : Type 0} → List ℕ → M W (Unit {0})
set_pkt bytes l = done (tt, record l { pkt = overwrite l.pkt bytes })

unfoldable pub set_buffer : {W : Type 0} → List ℕ → M W (Unit {0})
set_buffer bytes l = done (tt, record l { buffer = overwrite l.buffer bytes })

-- What the result of `recvfrom` and of `read` leaves.
unfoldable pub keep_packet : {W : Type 0} → Option (List ℕ) → M W Bool
keep_packet none = pure false
keep_packet (some bytes) = set_pkt bytes >> pure true

unfoldable pub keep_block : {W : Type 0} → Option (List ℕ) → M W ℤ
keep_block none = fail read_failed >> pure (negsuc 0)
keep_block (some bytes) = set_buffer bytes >> pure (pos (length bytes))

module _ (host : Host) where
  -- The packet for `sendto`, with `none` for a length that is refused.
  unfoldable pub send_if : Option (List ℕ) → M host.State Bool
  send_if none = pure false
  send_if (some packet) = call (host.sendto packet)

  unfoldable pub send_req_packet : ℕ → List ℕ → M host.State Bool
  unfolding get
  send_req_packet opcode fname = do
    l ← get
    packet ← lift (request_packet host.order (host.stack max_pkt_size l.world) opcode fname)
    call (host.sendto packet)

  unfoldable pub send_data_packet : List ℕ → ℕ → ℕ → M host.State Bool
  unfolding get
  send_data_packet bytes blknum datalen = do
    l ← get
    packet ← lift (data_packet host.order (host.stack max_pkt_size l.world) bytes blknum datalen)
    send_if packet

  unfoldable pub recv_packet : M host.State Bool
  recv_packet = do result ← await (host.recvfrom max_pkt_size); keep_packet result

  -- `buflen = read(...)`
  unfoldable pub read_block : M host.State ℤ
  read_block = do result ← call (host.read tftp_max_data_size); keep_block result

  -- The answer to the block `blknum`, which is looked for in `pkt` even if nothing was received.
  unfoldable pub check_answer : ℕ → M host.State (Unit {0})
  unfolding get
  check_answer blknum = do
    l ← get
    opcode ← lift (get_opcode host.order l.pkt)
    branch (opcode == op_ack)
        (do
          acked ← lift (get_blknum host.order l.pkt)
          branch (acked == blknum) (say block_acked) (fail wrong_block))
        (branch (opcode == op_error) (fail error_packet) (fail unknown_packet))

  -- One pass of the loop for the block `blknum`, which returns `buflen`.
  unfoldable pub send_next_block : ℕ → M host.State ℤ
  unfolding get
  send_next_block blknum = do
    buflen ← read_block
    l ← get
    sent ← send_data_packet l.buffer blknum (to_uint16 buflen)
    branch sent (pure tt) (fail block_not_sent)
    got ← recv_packet
    branch got (pure tt) (fail block_not_received)
    check_answer blknum
    pure buflen

  -- The `do` loop, with `blknum` as it is before the increment.
  unfoldable pub send_blocks : ℕ → ℕ → M host.State (Unit {0})
  unfolding get
  send_blocks zero blknum = lift none
  send_blocks (suc fuel) blknum = do
    let next = (blknum + 1) % 2 ^ 16
    buflen ← send_next_block next
    l ← get
    branch (is_full buflen && not l.error) (send_blocks fuel next) (pure tt)

  -- The answer to the request.
  unfoldable pub on_answer : ℕ → M host.State (Unit {0})
  unfolding get
  on_answer fuel = do
    l ← get
    opcode ← lift (get_opcode host.order l.pkt)
    branch (opcode == op_ack) (do say acked_request; send_blocks fuel 0; say transmitted)
        (branch (opcode == op_error) (fail error_answer) (fail unknown_answer))

  unfoldable pub talk : ℕ → List ℕ → M host.State (Unit {0})
  talk fuel bname = do
    sent ← send_req_packet op_wrq bname
    branch sent (say sent_request) (fail not_sent)
    got ← recv_packet
    branch got (say received >> on_answer fuel) (fail not_received)
    release host.freeaddrinfo

  unfoldable pub with_socket : ℕ → List ℕ → List ℕ → List ℕ → M host.State (Unit {0})
  with_socket fuel node service bname = do
    found ← call (host.getaddrinfo node service)
    branch found (talk fuel bname) (fail no_addresses)
    release host.close_socket

  unfoldable pub with_file : ℕ → List ℕ → List ℕ → List ℕ → M host.State (Unit {0})
  with_file fuel node service bname = do
    made ← call host.socket
    branch made (with_socket fuel node service bname) (fail no_socket)
    release host.close_file

  -- The body of `main` behind the declaration of its variables.
  unfoldable pub main_body : ℕ → List ℕ → List ℕ → List ℕ → M host.State ℕ
  main_body fuel node service fname = do
    let bname = get_basename fname
    branch (ltb (max_pkt_size - 12) (length bname)) (say name_too_long >> pure 1) do
      opened ← call (host.open_file fname)
      branch opened (with_file fuel node service bname) (fail no_file)
      l ← get
      pure (if l.error then 1 else 0)

  -- `node`, `service` and `fname` are `argv[1]` to `argv[3]`.
  unfoldable pub main : ℕ → List ℕ → List ℕ → List ℕ → host.State → Outcome (ℕ × Locals host.State)
  main fuel node service fname w = main_body fuel node service fname (record {
    world = w;
    pkt = host.stack max_pkt_size w;
    buffer = host.stack tftp_max_data_size w;
    error = false;
    output = [];
  })
