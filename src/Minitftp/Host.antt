-- ===== src/Minitftp/Host.antt =====
-- minitftp.c: the calls of the C library as parameters, the variables of `main` and its output.
use cwnet.Base.{ℕ, ◌≡◌, List, [], ◌∷◌, ◌++◌, Option, none, some, Bool, true, false, length}
use cwnet.Packet.{ByteOrder}

-- What the command prints, in the order of the source.
pub data Message : Type 0 where
  name_too_long sent_request not_sent received acked_request read_failed : Message
  block_not_sent block_not_received block_acked wrong_block error_packet unknown_packet : Message
  transmitted error_answer unknown_answer not_received no_addresses no_socket no_file : Message

-- `false` and `none` stand for a result of -1 (of `getaddrinfo`, for any but 0), and `stack` for
-- what a local array holds before it is written. `recvfrom` has no timeout: without a packet it
-- waits for ever, which is `none`.
pub record Host : Type 1 where
  pub State : Type 0
  pub order : ByteOrder
  pub stack : ℕ → State → List ℕ
  pub length-stack : (n : ℕ) (s : State) → length (stack n s) ≡ n
  pub open_file : List ℕ → State → Bool × State
  pub socket : State → Bool × State
  pub getaddrinfo : List ℕ → List ℕ → State → Bool × State
  pub read : ℕ → State → Option (List ℕ) × State
  pub sendto : List ℕ → State → Bool × State
  pub recvfrom : ℕ → State → Option (Option (List ℕ) × State)
  pub freeaddrinfo : State → State
  pub close_socket : State → State
  pub close_file : State → State

-- The variables of `main`, and what stands on the terminal.
pub record Locals (W : Type 0) : Type 0 where
  pub world : W
  pub pkt : List ℕ
  pub buffer : List ℕ
  pub error : Bool
  pub output : List Message

-- How statements end: with an access outside an array or a loop that has run through its fuel, in a
-- call that waits for ever, or with a result.
pub data Outcome (A : Type 0) : Type 0 where
  fault waits : Outcome A
  done : A → Outcome A

abbrev pub M : Type 0 → Type 0 → Type 0
M W A = Locals W → Outcome (A × Locals W)

infixl 5 ◌>>=◌ ◌>>◌
unfoldable pub ◌>>=◌ : {W A B : Type 0} → M W A → (A → M W B) → M W B
◌>>=◌ m f l = elim (m l) [ fault ↦ fault | waits ↦ waits | done (a, l') ↦ f a l' ]

abbrev pub ◌>>◌ : {W B : Type 0} → M W (Unit {0}) → M W B → M W B
m >> k = m >>= λ _. k

unfoldable pub pure : {W A : Type 0} → A → M W A
pure a l = done (a, l)

unfoldable pub lift : {W A : Type 0} → Option A → M W A
lift o l = elim o [ none ↦ fault | some a ↦ done (a, l) ]

-- The `if` of statements.
unfoldable pub branch : {W A : Type 0} → Bool → M W A → M W A → M W A
branch true f g = f
branch false f g = g

-- A message, and a message with `error = 1`.
unfoldable pub say : {W : Type 0} → Message → M W (Unit {0})
say m l = done (tt, record l { output = l.output ++ m ∷ [] })

unfoldable pub fail : {W : Type 0} → Message → M W (Unit {0})
fail m l = done (tt, record l { output = l.output ++ m ∷ []; error = true })

-- A call of the library, with its result or without one.
unfoldable pub call : {W A : Type 0} → (W → A × W) → M W A
call f l = done ((f l.world).0, record l { world = (f l.world).1 })

-- A call that may wait for ever.
unfoldable pub await : {W A : Type 0} → (W → Option (A × W)) → M W A
await f l = elim (f l.world) [ none ↦ waits | some (a, w) ↦ done (a, record l { world = w }) ]

unfoldable pub release : {W : Type 0} → (W → W) → M W (Unit {0})
release f l = done (tt, record l { world = f l.world })
