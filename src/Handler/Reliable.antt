-- ===== src/Handler/Reliable.antt =====
-- What a lossless line and a server that acknowledges every packet mean for the handler: the laws
-- of an interface to netio.c in which nothing fails, and the loop with no other client about.
use cwnet.Base.{
  ◌<◌, ℕ, ◌+◌, ◌%◌, ◌^◌, ◌≡◌, ◌≤◌, List, [], ◌∷◌, ◌++◌, some, true, pos, length, take, drop, min,
}
use cwnet.Handler.State.{Handler, Message, serial}
use cwnet.Handler.Network.{NetIo}
use cwnet.Handler.Loop.{round}

-- A data packet as the server gets it.
pub record Block : Type 0 where
  pub number : ℕ
  pub payload : List ℕ

pub record Reliable (net : NetIo) : Type 1 where
  -- The numbers of blocks below this one are acknowledged.
  pub limit : ℕ
  pub limit_le : limit ≤ 2 ^ 16
  -- The data packets that the server has got.
  pub blocks : net.Net → List Block
  -- A packet is being written, and an answer is being read, that is acknowledged with the number.
  pub Writing : net.Net → ℕ → Type 0
  pub Reading : net.Net → ℕ → Type 0
  -- Nothing is under way on the line.
  pub Ready : net.Net → Type 0
  -- The file names and the data whose packets fit a packet buffer when they are coded.
  pub Requestable : List ℕ → Type 0
  pub Sendable : List ℕ → Type 0
  -- A write request reaches the server, which will acknowledge it as block 0.
  pub send_req_ok :
      (name : List ℕ) (s : net.Net)
      → Ready s
      → Requestable name
      → (s' : net.Net) × (net.send_req 2 name s ≡ some (true, s'))
        × (blocks s' ≡ blocks s)
        × Writing s' 0
  -- A packet that is handed over whole reaches the server.
  pub send_data_ok :
      (k : ℕ) (bytes : List ℕ) (from n : ℕ) (s : net.Net)
      → Ready s
      → k < limit
      → from + n ≤ length bytes
      → Sendable (take (min n 512) (drop from bytes))
      → (s' : net.Net) × (net.send_data k bytes from (pos n) s ≡ some (true, s'))
        × (blocks s'
            ≡ blocks s
              ++ (record { number = k % 2 ^ 16; payload = take (min n 512) (drop from bytes) })
                ∷ [])
        × Writing s' k
  -- The write ends well, and the read of the answer is started.
  pub written_ok :
      (s : net.Net) (k : ℕ)
      → Writing s k
      → (s₁ s₂ s₃ : net.Net) × (net.stop_timer s ≡ some s₁)
        × (net.get_status s₁ ≡ some (pos 0, s₂))
        × (net.recv s₂ ≡ some (true, s₃))
        × Reading s₃ k
        × (blocks s₃ ≡ blocks s)
  -- The answer is the acknowledgement.
  pub answer_ok :
      (s : net.Net) (k : ℕ)
      → Reading s k
      → (s₁ s₂ s₃ : net.Net) × (net.stop_timer s ≡ some s₁)
        × (net.get_status s₁ ≡ some (pos 0, s₂))
        × (net.extract s₂ ≡ some (true, s₃))
        × (net.opcode s₃ ≡ some 4)
        × (net.blknum s₃ ≡ some k)
        × (blocks s₃ ≡ blocks s)
        × Ready s₃

-- With no client about, the port is empty only while the serial device is at work, and then its
-- request is what arrives next.
abbrev pub next_messages : List Message → List Message
next_messages [] = serial ∷ []
next_messages (m ∷ ms) = m ∷ ms

-- Rounds of the loop with no client about.
pub data Runs (net : NetIo) (h : Handler net.Net) : Handler net.Net → Type 0 where
  here : Runs net h h
  then_ :
      {h' h'' : Handler net.Net}
      → Runs net h h'
      → round net (λ n. true) (next_messages h'.port) h' ≡ some h''
      → Runs net h h''

pub Runs-trans :
    (net : NetIo) {h h' h'' : Handler net.Net} → Runs net h h' → Runs net h' h'' → Runs net h h''
Runs-trans net r here = r
Runs-trans net r (then_ q e) = then_ (Runs-trans net r q) e
