-- ===== src/Base/Utf8.antt =====
-- `String::from_utf8`: the test that bytes are well-formed UTF-8, one sequence after another.
use Prim.Native.Nat.{ℕ, zero, suc}
use mathlib.Core.Bool.{Bool, true, false, ◌&&◌}
use mathlib.Core.Option.{Option, none, some}
use mathlib.Core.List.{[], ◌∷◌}
use svn.Base.Tests.{leb, ltb, ◌==◌, if◌then◌else◌}
use svn.Base.Text.{Bytes}

abbrev between : ℕ → ℕ → ℕ → Bool
between lo hi b = leb lo b && leb b hi

abbrev tail_byte : ℕ → Bool
tail_byte = between 0x80 0xbf

-- The second byte of a sequence of three or four, which excludes overlong forms, surrogates and
-- what lies above U+10FFFF.
pub second_of_three : ℕ → ℕ → Bool
second_of_three b c =
    if b == 0xe0
    then between 0xa0 0xbf c
    else if b == 0xed
    then between 0x80 0x9f c
    else between 0xe1 0xef b && tail_byte c

pub second_of_four : ℕ → ℕ → Bool
second_of_four b c =
    if b == 0xf0
    then between 0x90 0xbf c
    else if b == 0xf4
    then between 0x80 0x8f c
    else between 0xf1 0xf3 b && tail_byte c

-- The states of the scan: between characters, or some tail bytes short.
pub data Scan : Type 0 where
  start : Scan
  tails : ℕ → Scan
  after : ℕ → Scan

pub step : Scan → ℕ → Option Scan
unfolding second_of_three second_of_four
step start b =
    if ltb b 0x80
    then some start
    else if between 0xc2 0xdf b
    then some (tails 1)
    else if between 0xe0 0xf4 b
    then some (after b)
    else none
step (tails zero) b = none
step (tails (suc zero)) b = if tail_byte b then some start else none
step (tails (suc (suc n))) b = if tail_byte b then some (tails (suc n)) else none
step (after a) b =
    if second_of_three a b
    then some (tails 1)
    else if second_of_four a b
    then some (tails 2)
    else none

pub scan : Scan → Bytes → Bool
unfolding step
scan start [] = true
scan (tails n) [] = false
scan (after a) [] = false
scan s (b ∷ bs) = elim (step s b) [ none ↦ false | some t ↦ scan t bs ]

unfoldable pub is_utf8 : Bytes → Bool
unfolding scan
is_utf8 = scan start

-- `String::from_utf8(bytes).ok()`
unfoldable pub from_utf8 : Bytes → Option Bytes
unfolding is_utf8
from_utf8 bs = if is_utf8 bs then some bs else none
