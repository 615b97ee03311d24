-- ===== src/Handler/Network.antt =====
-- What the handler uses of netio.c, as an interface. `extract` puts the received TFTP packet into
-- the handler's buffer, whose opcode and block number `opcode` and `blknum` read.
use cwnet.Base.{ℕ, List, Option, Bool, ℤ}

pub record NetIo : Type 1 where
  pub Net : Type 0
  pub errno : Net → ℕ
  pub send_req : ℕ → List ℕ → Net → Option (Bool × Net)
  pub send_data : ℕ → List ℕ → ℕ → ℤ → Net → Option (Bool × Net)
  pub recv : Net → Option (Bool × Net)
  pub extract : Net → Option (Bool × Net)
  pub opcode : Net → Option ℕ
  pub blknum : Net → Option ℕ
  pub stop_timer : Net → Option Net
  pub get_status : Net → Option (ℤ × Net)
  pub abort : Net → Option Net
