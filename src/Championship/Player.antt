-- ===== src/Championship/Player.antt =====
-- player.c: the players 0 to 7, and the agents 8 to 14 that go on for the players who lose.
pub mod Laws
pub mod Fifo
use sp.Base.{
  ℕ, ◌==◌, leb, if◌then◌else◌, Bool, true, false, List, ◌∷◌, [], ◌++◌, Option, some, none, Result,
  ok, err, exited, bad_access, blocked, overflow, ◌>>=◌,
}
use sp.Base.Int.{ℤ, pos, negsuc, ltb_ℤ, eqb_ℤ, add_int, sub_int, half_ℤ}
use sp.Base.Text.{Bytes, codes, strcmp}
use sp.Base.Decimal.{decimal}
use Prim.Native.Nat.{Ordering}
use sp.Championship.Status.{
  Attribute, fire, grass, water, Status, Outside, Link, int_text, write_line, read_log, write_log,
}
use sp.Championship.Graph.{graph}

-- What `sscanf` finds in a line of player_status.txt.
pub record Fields : Type 0 where
  pub hp : ℤ
  pub atk : ℤ
  pub attr : Bytes
  pub current_battle_id : ℕ
  pub battle_ended_flag : ℤ

abbrev pub is_text : Bytes → Bytes → Bool
is_text s t = elim (strcmp s t) [ Ordering.eq ↦ true | _ ↦ false ]

unfoldable pub translate : Bytes → Attribute
translate attr =
    if is_text attr (codes "FIRE")
    then fire
    else if is_text attr (codes "GRASS")
    then grass
    else water

-- A player in its loop.
pub record Player : Type 0 where
  pub id : ℕ
  pub status : Status
  pub origin_hp : ℤ
  pub link : Link

-- Where the process is: before its first line, at a read or a write of its loop, or at an end.
pub data Phase : Type 0 where
  starting gone : Phase
  playing : Player → Phase

abbrev pub is_real : ℕ → Bool
is_real id = leb id 7

abbrev pub log_file : ℕ → Bytes
log_file id = codes "log_player" ++ decimal id ++ codes ".txt"

-- The lines "fifo to" and "fifo from".
unfoldable pub fifo_line : (word : Bytes) (id pid : ℕ) (other : ℤ) → Status → Bytes
unfolding int_text
fifo_line word id pid other status =
    decimal id
    ++ b',' ∷ decimal pid
    ++ codes " fifo "
    ++ word
    ++ b' ' ∷ int_text other
    ++ b' ' ∷ decimal status.real_player_id
    ++ b',' ∷ int_text status.hp
    ++ b'\n' ∷ []

abbrev pub put_fifo : ℕ → Status → Outside → Outside
put_fifo k status w = record w { fifo = λ j. if j == k then some status else w.fifo j }

-- The write to the agent's FIFO; player-1.fifo has no reader, and `open` waits for one.
unfoldable pub hand_over : ℤ → Status → Outside → Result Outside
hand_over (pos agent) status w = ok (put_fifo agent status w)
hand_over (negsuc n) status w = err blocked

-- The end of `main` for a player that lost, and for an agent that lost.
unfoldable pub lose : Bool → Player → Outside → Result (Phase × Outside)
unfolding fifo_line hand_over write_line
lose false p w = ok (gone, w)
lose true p w = do
  let status = record p.status { hp = p.origin_hp; battle_ended_flag = pos 0 }
  let agent = (graph status.current_battle_id).loser
  handed ← hand_over agent status w
  ok (gone, write_line p.link.file (fifo_line (codes "to") p.id p.link.pid agent status) handed)

-- `status.HP += (originHP - status.HP) / 2`
unfoldable pub recover : ℤ → Status → Result Status
recover origin_hp status = do
  lost ← sub_int origin_hp status.hp
  hp ← add_int status.hp (half_ℤ lost)
  ok (record status { hp = hp; battle_ended_flag = pos 0 })

-- The loop of `main` behind its inner loop.
unfoldable pub after_battle : Player → Outside → Result (Phase × Outside)
unfolding lose recover
after_battle p w =
    if p.status.current_battle_id == b'A'
    then ok (gone, w)
    else (if ltb_ℤ (pos 0) p.status.hp
        then (do
          status ← recover p.origin_hp p.status
          ok (playing (record p { status = status }), w))
        else lose (is_real p.id) p w)

-- The test of the inner loop.
unfoldable pub test_flag : Player → Outside → Result (Phase × Outside)
unfolding after_battle
test_flag p w =
    let ended = after_battle p w in
    if eqb_ℤ p.status.battle_ended_flag (pos 1) then ended else ok (playing p, w)

-- What `player_status.txt` holds, and the number of a process by its name.
module _ (fields : ℕ → Fields) (pid : Bytes → ℕ) where
  abbrev pub real_status : ℕ → Status
  real_status id = record {
    real_player_id = id;
    hp = (fields id).hp;
    atk = (fields id).atk;
    attr = translate (fields id).attr;
    current_battle_id = (fields id).current_battle_id;
    battle_ended_flag = (fields id).battle_ended_flag;
  }

  abbrev pub new_player : (id target : ℕ) (parent_pid : ℕ) → Status → Player
  new_player id target parent_pid status = record {
    id = id;
    status = status;
    origin_hp = status.hp;
    link = record {
      file = log_file status.real_player_id;
      id = decimal id;
      pid = pid (decimal id);
      target = target ∷ [];
      target_pid = parent_pid;
    };
  }

  -- An agent, with what it reads from its FIFO.
  unfoldable pub take_over :
      (id parent_pid : ℕ) → Option Status → Outside → Result (Phase × Outside)
  unfolding test_flag fifo_line write_line
  take_over id parent_pid none w = err blocked
  take_over id parent_pid (some status) w =
      test_flag (new_player id (graph status.current_battle_id).loser_parent parent_pid status) (
        write_line (log_file status.real_player_id)
          (fifo_line (codes "from") id (pid (decimal id)) (pos status.real_player_id) status) w)

  -- The part of `main` before its loop, and the first test of the inner loop.
  unfoldable pub begin_player : (id parent_pid : ℕ) → Outside → Result (Phase × Outside)
  unfolding take_over
  begin_player id parent_pid w =
      if is_real id
      then test_flag (new_player id (real_status id).current_battle_id parent_pid (real_status id))
          w
      else take_over id parent_pid (w.fifo id) w

-- `writeLog` of the inner loop: the status goes to the parent. From a process at an end nothing comes.
unfoldable pub send_status : Phase → Outside → Result (Status × Phase × Outside)
unfolding write_log
send_status (playing p) w = ok (p.status, playing p, write_log p.link p.status w)
send_status starting w = err bad_access
send_status gone w = err bad_access

-- `readLog` of the inner loop; a write to a process at an end raises SIGPIPE.
unfoldable pub receive_status : Status → Phase → Outside → Result (Phase × Outside)
unfolding read_log test_flag
receive_status status (playing p) w =
    test_flag (record p { status = status }) (read_log p.link status w)
receive_status status starting w = err exited
receive_status status gone w = err exited
