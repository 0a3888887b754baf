-- ===== src/Championship/Status/Lines.antt =====
-- The lines of the log files fit the buffers in which `sprintf` puts them.
use sp.Base.{ℕ, ◌+◌, ◌≤◌, ◌<◌, ◌^◌, length, length-append, arith}
use sp.Base.Int.{ℤ, pos, negsuc, pos_part, neg_part, int_max}
use sp.Base.Text.{Bytes}
use sp.Base.Decimal.{length-decimal}
use sp.Championship.Status.{Status, int_text, pipe_line}

-- The range of `int`.
abbrev pub InRange : ℤ → Type 0
InRange a = (pos_part a ≤ int_max) × (neg_part a ≤ 2 ^ 31)

length-int_text : (a : ℤ) → InRange a → length (int_text a) ≤ 11
unfolding int_text
length-int_text (pos n) h = omega (arith, length-decimal 9 n (omega (arith, h)))
length-int_text (negsuc n) h = omega (arith, length-decimal 9 (n + 1) (omega (arith, h)))

-- `readLog` and `writeLog` print into a buffer of 80 characters: for names of at most two characters
-- and numbers in the range of `int` the line and its NUL fit.
pub length-pipe_line :
    (word id : Bytes) (pid : ℕ) (target : Bytes) (target_pid : ℕ) (s : Status)
    → length word ≤ 4
    → length id ≤ 2
    → length target ≤ 2
    → pid ≤ int_max
    → target_pid ≤ int_max
    → s.real_player_id ≤ int_max
    → InRange s.hp
    → InRange s.battle_ended_flag
    → length (pipe_line word id pid target target_pid s) < 80
unfolding pipe_line
length-pipe_line word id pid target target_pid s hw hi ht hp hq hr hh hf = omega (
  arith,
  length-append {0},
  length-decimal 9 pid (omega (arith, hp)),
  length-decimal 9 target_pid (omega (arith, hq)),
  length-decimal 9 s.real_player_id (omega (arith, hr)),
  length-int_text s.hp hh,
  length-int_text s.battle_ended_flag hf,
)
