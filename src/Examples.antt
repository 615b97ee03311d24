-- ===== src/Examples.antt =====
-- Concrete data for the theorems, and the theorems at that data.
mod Coding
mod Sending
mod Receiving
mod Sessions
mod Delivering
mod Clients
mod Failing
mod Wired
mod Commands
mod Starting
mod Echoing
use cwnet.Base.{ℕ, zero, suc, ◌≡◌, refl, ap, List, [], ◌∷◌, ◌++◌, length}

-- A block of memory.
abbrev pub zeros : ℕ → List ℕ
zeros zero = []
zeros (suc n) = 0 ∷ zeros n

pub length-zeros : (n : ℕ) → length (zeros n) ≡ n
length-zeros zero = refl
length-zeros (suc n) = ap suc (length-zeros n)
