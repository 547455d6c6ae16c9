-- ===== src/Prelude/Int.antt =====
-- Python's unbounded integers, over the native numbers: a time stamp that a peer sends may be
-- negative. Orders go by the two parts of an integer, which are numbers that `omega` reads.
use Prim.Native.Nat.{ℕ, zero, suc, ◌+◌, ◌-◌, ◌≤◌, ◌<◌}
use mathlib.Core.Path.{◌≡◌}
use mathlib.Core.Bool.{Bool, true}
use native.Mathlib.Omega.{arith}
use mdp2p.Prelude.Tests.{leb, ltb, if◌then◌else◌}

-- `negsuc n` is -(n + 1).
pub data ℤ : Type 0 where
  pos : ℕ → ℤ
  negsuc : ℕ → ℤ

abbrev pub pos_part : ℤ → ℕ
pos_part (pos n) = n
pos_part (negsuc n) = 0

abbrev pub neg_part : ℤ → ℕ
neg_part (pos n) = 0
neg_part (negsuc n) = suc n

infix 50 ◌≤ℤ◌ ◌<ℤ◌
abbrev pub ◌≤ℤ◌ : ℤ → ℤ → Type 0
a ≤ℤ b = pos_part a + neg_part b ≤ pos_part b + neg_part a

abbrev pub ◌<ℤ◌ : ℤ → ℤ → Type 0
a <ℤ b = pos_part a + neg_part b < pos_part b + neg_part a

abbrev pub ltb_ℤ : ℤ → ℤ → Bool
ltb_ℤ a b = ltb (pos_part a + neg_part b) (pos_part b + neg_part a)

abbrev pub leb_ℤ : ℤ → ℤ → Bool
leb_ℤ a b = leb (pos_part a + neg_part b) (pos_part b + neg_part a)

-- `a - b`
unfoldable pub minus_ℤ : ℤ → ℤ → ℤ
minus_ℤ a b =
    let x = pos_part a + neg_part b in
    let y = pos_part b + neg_part a in if leb y x then pos (x - y) else negsuc (y - suc x)

-- `a + 1`
unfoldable pub succ_ℤ : ℤ → ℤ
succ_ℤ (pos n) = pos (suc n)
succ_ℤ (negsuc zero) = pos 0
succ_ℤ (negsuc (suc n)) = negsuc n

-- max(a, b)
unfoldable pub max_ℤ : ℤ → ℤ → ℤ
max_ℤ a b = if leb_ℤ a b then b else a

-- abs(a - b), a number
unfoldable pub distance : ℤ → ℤ → ℕ
distance a b =
    if leb_ℤ a b
    then pos_part b + neg_part a - (pos_part a + neg_part b)
    else pos_part a + neg_part b - (pos_part b + neg_part a)

pub ltb_ℤ→<ℤ : (a b : ℤ) → ltb_ℤ a b ≡ true → a <ℤ b
ltb_ℤ→<ℤ a b h = ground arith
