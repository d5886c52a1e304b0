-- ===== src/Textdelta/Apply.antt =====
-- `apply_window` and `apply_window_source` (src/textdelta/decode.rs): the instructions of one
-- window, run over a source view.
pub mod New
use svn.Base.{
  ℕ, zero, suc, ◌+◌, ◌^◌, ◌/◌, ◌%◌, ◌≤◌, ◌<◌, ◌≡◌, refl, [], ◌∷◌, ◌++◌, Bytes, text, length, take,
  drop, get_elem?, ltb, leb, ◌==◌, ◌||◌, if◌then◌else◌, Option, none, some, Result, ok, err,
  protocol, SvnError, ◌>>=◌, ◌>>◌, ok_or, refuse_if, not, bit_and, arith,
}
use svn.Base.Words.{checked_add, usize_try_from}
use svn.Textdelta.Uint.{try_decode_uint}
use svn.Textdelta.Window.{WindowHeader, is_none}

-- `for i in 0..len { target.push(target[off + i]) }`. The source's index is in range at each
-- round, since `off` lies below the length at the start; past it nothing is pushed here.
unfoldable pub copy_target : ℕ → ℕ → Bytes → Bytes
copy_target zero off target = target
copy_target (suc n) off target = elim (get_elem? target off) [
  | none ↦ target
  | some b ↦ copy_target n (off + 1) (target ++ b ∷ [])
]

-- An integer that an instruction needs, and what it takes of the input.
unfoldable pub operand : SvnError → SvnError → Bytes → Result (ℕ × ℕ)
operand missing too_large input = do
  o ← try_decode_uint input
  (v, used) ← ok_or missing o
  v' ← ok_or too_large (usize_try_from v)
  ok (v', used)

-- The state of the loop besides the position: `npos` and `target`.
pub record Progress : Type 0 where
  pub npos : ℕ
  pub target : Bytes

module _ (source_view : Bytes) (tview_len : ℕ) (new_data : Bytes) where
  -- The three actions. Each returns how much more of the instructions it has read.
  unfoldable pub run_source : Bytes → ℕ → Progress → Result (ℕ × Progress)
  unfolding operand
  run_source rest len p = do
    (off, used) ←
        operand (protocol (text "svndiff source instruction missing offset"))
          (protocol (text "svndiff offset overflows usize")) rest
    refuse_if
        (ltb (length source_view) off
          || (is_none (checked_add off len) || ltb (length source_view) (off + len)))
        (protocol (text "svndiff [src] instruction overflows source view"))
    ok (used, record p { target = p.target ++ take len (drop off source_view) })

  unfoldable pub run_target : Bytes → ℕ → Progress → Result (ℕ × Progress)
  unfolding operand
  run_target rest len p = do
    (off, used) ←
        operand (protocol (text "svndiff target instruction missing offset"))
          (protocol (text "svndiff offset overflows usize")) rest
    refuse_if (leb (length p.target) off)
        (protocol (text "svndiff [tgt] instruction starts beyond target view position"))
    ok (used, record p { target = copy_target len off p.target })

  unfoldable pub run_new : ℕ → Progress → Result (ℕ × Progress)
  run_new len p = do
    refuse_if (is_none (checked_add p.npos len) || ltb (length new_data) (p.npos + len))
        (protocol (text "svndiff [new] instruction overflows new data section"))
    ok (0, record { npos = p.npos + len; target = p.target ++ take len (drop p.npos new_data) })

  unfoldable pub run_action : ℕ → Bytes → ℕ → Progress → Result (ℕ × Progress)
  run_action zero rest len p = run_source rest len p
  run_action (suc zero) rest len p = run_target rest len p
  run_action (suc (suc zero)) rest len p = run_new len p
  run_action (suc (suc (suc n))) rest len p = err (protocol (text "svndiff invalid action"))

  -- The length of an instruction: in the selector, or in an integer behind it.
  unfoldable pub read_length : ℕ → Bytes → Result (ℕ × ℕ)
  read_length selector rest =
      let short = bit_and selector 0x3f in
      if short == 0
      then operand (protocol (text "svndiff instruction truncated length"))
          (protocol (text "svndiff length overflows usize")) rest
      else ok (short, 0)

  -- One round of the loop behind its selector: the bytes read, and the new state.
  unfoldable pub instruction : ℕ → Bytes → Progress → Result (ℕ × Progress)
  instruction selector rest p = do
    let action = bit_and (selector / 2 ^ 6) 0x3
    refuse_if (leb 3 action) (protocol (text "svndiff invalid action"))
    (len, used) ← read_length selector rest
    refuse_if (len == 0) (protocol (text "svndiff instruction has length zero"))
    filled ←
        ok_or (protocol (text "svndiff target size overflow")) (checked_add (length p.target) len)
    refuse_if (ltb tview_len filled) (protocol (text "svndiff instruction overflows target view"))
    (more, p') ← run_action action (drop used rest) len p
    ok (used + more, p')

  unfoldable pub finish_window : Progress → Result Bytes
  finish_window p = do
    refuse_if (not (length p.target == tview_len))
        (protocol (text "svndiff delta does not fill the target window"))
    refuse_if (not (p.npos == length new_data))
        (protocol (text "svndiff delta does not contain enough new data"))
    ok p.target

  -- `while ipos < instructions.len()`: `skip` counts the bytes up to `ipos`, which the round
  -- before has read.
  unfoldable pub instructions_loop : Bytes → ℕ → Progress → Result Bytes
  unfolding finish_window
  instructions_loop [] skip p = finish_window p
  instructions_loop (b ∷ bs) (suc skip) p = instructions_loop bs skip p
  instructions_loop (b ∷ bs) zero p = elim (instruction b bs p) [
    | err e ↦ err e
    | ok (used, p') ↦ instructions_loop bs used p'
  ]

unfoldable pub apply_window_source : Bytes → ℕ → Bytes → Bytes → Result Bytes
apply_window_source source_view tview_len instructions new_data =
    instructions_loop source_view tview_len new_data instructions 0
      (record { npos = 0; target = [] })

unfoldable pub apply_window : Bytes → WindowHeader → Bytes → Bytes → Result Bytes
unfolding apply_window_source
apply_window base window instructions new_data = do
  sview_offset ←
      ok_or (protocol (text "svndiff source view offset overflows usize"))
        (usize_try_from window.sview_offset)
  sview_end ←
      ok_or (protocol (text "svndiff source view end overflow"))
        (checked_add sview_offset window.sview_len)
  refuse_if (ltb (length base) sview_end)
      (protocol (text "svndiff source view out of bounds for base"))
  let source_view = take window.sview_len (drop sview_offset base)
  apply_window_source source_view window.tview_len instructions new_data
