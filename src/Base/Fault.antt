-- ===== src/Base/Fault.antt =====
-- Undefined behaviour as `none`: a read or a write outside a block, a dereferenced NULL.
use Prim.Native.Nat.{ℕ, ◌+◌, ◌<◌}
use mathlib.Core.Path.{◌≡◌, refl}
use mathlib.Core.List.{List, ◌++◌}
use mathlib.Core.Option.{Option, none, some}
use cwnet.Base.Tests.{ltb, leb, if◌then◌else◌, lt→ltb}
use cwnet.Base.Lists.{length, set, take, drop}

infixl 5 ◌>>=◌
abbrev pub ◌>>=◌ {ℓ κ} : {A : Type ℓ} {B : Type κ} → Option A → (A → Option B) → Option B
none >>= f = none
some a >>= f = f a

pub >>=-eq-some {ℓ κ} :
    {A : Type ℓ} {B : Type κ} (m : Option A) (f : A → Option B) {b : B}
    → (m >>= f) ≡ some b
    → (a : A) × (m ≡ some a) × (f a ≡ some b)
>>=-eq-some none f h = cc
>>=-eq-some (some a) f h = (a, refl, h)

-- `*(block + i) = v`
abbrev pub store : List ℕ → ℕ → ℕ → Option (List ℕ)
store block i v = if ltb i (length block) then some (set block i v) else none

pub store-some :
    (block : List ℕ) (i v : ℕ) → i < length block → store block i v ≡ some (set block i v)
store-some block i v h = rw (lt→ltb i (length block) h)

-- `memcpy(dst + at, src + from, n)`
unfoldable pub memcpy : List ℕ → ℕ → List ℕ → ℕ → ℕ → Option (List ℕ)
memcpy dst to src from n =
    if leb (to + n) (length dst)
    then if leb (from + n) (length src)
      then some (take to dst ++ take n (drop from src) ++ drop (to + n) dst)
      else none
    else none

pub some-eq {ℓ} : {A : Type ℓ} {a b : A} → ◌≡◌ {A = Option A} (some a) (some b) → a ≡ b
some-eq e = cc e
