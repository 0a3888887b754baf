-- ===== src/Championship/Status.antt =====
-- status.h and log.c: what the processes send each other, and the lines that they log. A process
-- number is that of `getpid`, and the world is what lies outside of the processes: the FIFOs of the
-- agents and the lines of the log files, latest first.
pub mod Lines
use sp.Base.{◌+◌, ℕ, ◌==◌, if◌then◌else◌, List, ◌∷◌, [], ◌++◌, Option, some, none}
use sp.Base.Int.{ℤ, pos, negsuc}
use sp.Base.Text.{Bytes, codes}
use sp.Base.Decimal.{decimal}

pub data Attribute : Type 0 where
  fire grass water : Attribute

pub record Status : Type 0 where
  pub real_player_id : ℕ
  pub hp : ℤ
  pub atk : ℤ
  pub attr : Attribute
  pub current_battle_id : ℕ
  pub battle_ended_flag : ℤ

-- A line of a log file.
pub record Entry : Type 0 where
  pub file : Bytes
  pub line : Bytes

pub record Outside : Type 0 where
  pub fifo : ℕ → Option Status
  pub log : List Entry

-- `%d`
unfoldable pub int_text : ℤ → Bytes
int_text (pos n) = decimal n
int_text (negsuc n) = b'-' ∷ decimal (n + 1)

-- The line of `readLog` and `writeLog`, with "from" or "to".
unfoldable pub pipe_line :
    (word id : Bytes) (pid : ℕ) (target : Bytes) (target_pid : ℕ) → Status → Bytes
unfolding int_text
pipe_line word id pid target target_pid status =
    id
    ++ b',' ∷ decimal pid
    ++ codes " pipe "
    ++ word
    ++ b' ' ∷ target
    ++ b',' ∷ decimal target_pid
    ++ b' ' ∷ decimal status.real_player_id
    ++ b',' ∷ int_text status.hp
    ++ b',' ∷ status.current_battle_id ∷ b',' ∷ int_text status.battle_ended_flag
    ++ b'\n' ∷ []

unfoldable pub write_line : (file line : Bytes) → Outside → Outside
write_line file line w = record w { log = record { file = file; line = line } ∷ w.log }

-- A process, its parent or child at the other end of a pipe, and the log file.
pub record Link : Type 0 where
  pub file : Bytes
  pub id : Bytes
  pub pid : ℕ
  pub target : Bytes
  pub target_pid : ℕ

-- The logs of a status that comes in by a pipe, and of one that goes out.
unfoldable pub read_log : Link → Status → Outside → Outside
unfolding pipe_line write_line
read_log l status w =
    write_line l.file (pipe_line (codes "from") l.id l.pid l.target l.target_pid status) w

unfoldable pub write_log : Link → Status → Outside → Outside
unfolding pipe_line write_line
write_log l status w =
    write_line l.file (pipe_line (codes "to") l.id l.pid l.target l.target_pid status) w
