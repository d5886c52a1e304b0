-- ===== src/Base/Words.antt =====
-- Unsigned 64-bit arithmetic as the program uses it; `usize` has 64 bits, too.
use Prim.Native.Nat.{ℕ, suc, ◌+◌, ◌*◌, ◌^◌, ◌%◌, ◌<◌}
use mathlib.Core.Option.{Option, none, some}
use native.Mathlib.Omega.{arith}
use mathlib.Core.WellFounded.{Acc, WellFounded}
use svn.Base.Tests.{ltb, if◌then◌else◌}

abbrev pub IsByte : ℕ → Type 0
IsByte b = b < 256

abbrev pub IsU64 : ℕ → Type 0
IsU64 v = v < 2 ^ 64

abbrev pub u64_max : ℕ
u64_max = 0xffff_ffff_ffff_ffff

abbrev pub checked_add : ℕ → ℕ → Option ℕ
checked_add a b = if ltb (a + b) (2 ^ 64) then some (a + b) else none

abbrev pub checked_mul : ℕ → ℕ → Option ℕ
checked_mul a b = if ltb (a * b) (2 ^ 64) then some (a * b) else none

-- Only the shift count is checked: bits that leave the word are lost.
abbrev pub checked_shl : ℕ → ℕ → Option ℕ
checked_shl a k = if ltb k 64 then some (a * 2 ^ k % 2 ^ 64) else none

abbrev pub usize_try_from : ℕ → Option ℕ
usize_try_from v = if ltb v (2 ^ 64) then some v else none

accessible_below : (k n : ℕ) → n < k → Acc ◌<◌ n
accessible_below ℕ.zero n h = absurd (omega arith)
accessible_below (suc k) n h = Acc.intro n (λ m hm. accessible_below k m (omega arith))

unfoldable pub lt_wf : WellFounded ◌<◌
unfolding accessible_below
lt_wf = record { apply = λ n. accessible_below (suc n) n (omega arith) }
