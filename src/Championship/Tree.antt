-- ===== src/Championship/Tree.antt =====
-- The processes of a championship, joined by their pipes. A process with a parent is a peer: it is
-- asked for the status that it writes next, and is given one to read. Each process does nothing
-- between two such points that another could see, but for the FIFOs and the log files; the left child
-- of a battle is asked first, as the battle reads.
pub mod Live
pub mod Take
pub mod Round
pub mod Play
pub mod Begin
pub mod Start
pub mod Root
use sp.Base.{
  ℕ, zero, suc, ◌==◌, if◌then◌else◌, Bool, true, false, not, ◌&&◌, List, ◌∷◌, [], ◌++◌, Result, ok,
  err, exited, bad_access, blocked, unfinished, guard, ◌||◌, ◌>>=◌, ◌>>◌,
}
use sp.Base.Int.{ℤ, pos, eqb_ℤ}
use sp.Base.Text.{Bytes, codes}
use sp.Base.Decimal.{decimal}
use sp.Championship.Status.{Status, Outside, Link, read_log, write_log}
use sp.Championship.Graph.{graph, Shape, leaf, node, shape}
use sp.Championship.Battle.{fight, is_down}
use sp.Championship.Player.{
  Fields, Phase, starting, gone, playing, begin_player, send_status, receive_status,
}

pub record Peer (S : Type 0) : Type 0 where
  pub send : S → Outside → Result (Status × S × Outside)
  pub receive : Status → S → Outside → Result (S × Outside)

-- A battle with its children: in the playing mode, in the passing mode for the one on the right or on
-- the left, or at an end.
pub data BattleState (L R : Type 0) : Type 0 where
  fresh : L → R → BattleState L R
  passing : (right_won : Bool) → L → R → BattleState L R
  over : L → R → BattleState L R

-- The state in which the playing mode ends.
pub record Ended (L R : Type 0) : Type 0 where
  pub stat1 : Status
  pub stat2 : Status
  pub left : L
  pub right : R
  pub world : Outside

abbrev pub ProcState : Shape → Type 0
ProcState (leaf k) = Phase
ProcState (node b l r) = BattleState (ProcState l) (ProcState r)

-- Whether the process has exited, and all processes below it.
abbrev pub has_ended : (s : Shape) → ProcState s → Bool
has_ended (leaf k) gone = true
has_ended (leaf k) starting = false
has_ended (leaf k) (playing p) = false
has_ended (node b l r) (fresh x y) = false
has_ended (node b l r) (passing right_won x y) = false
has_ended (node b l r) (over x y) = has_ended l x && has_ended r y

abbrev pub battle_log : ℕ → Bytes
battle_log b = codes "log_battle" ++ b ∷ codes ".txt"

-- The `break` of the passing mode, and the test of its loop.
abbrev pub stays : Status → Bool
stays s =
    not (s.current_battle_id == b'A' && not (eqb_ℤ s.battle_ended_flag (pos 0))) && not (is_down s)

-- The processes on the left and on the right of battle A.
abbrev pub left_shape : Shape
left_shape = shape 6 (graph b'A').left_player (graph b'A').left

abbrev pub right_shape : Shape
right_shape = shape 6 (graph b'A').right_player (graph b'A').right

-- Every process before its first line.
abbrev pub initial : (s : Shape) → ProcState s
initial (leaf k) = starting
initial (node b l r) = fresh (initial l) (initial r)

abbrev pub winner : {L R : Type 0} → Ended L R → ℕ
winner e = (if is_down e.stat1 then e.stat2 else e.stat1).real_player_id

-- `wait(NULL)` behind the playing mode, which returns when a child has exited, and the one at the end
-- of `main`, for the other child.
abbrev pub wait_one : (left_ended right_ended : Bool) → Result (Unit {0})
wait_one left_ended right_ended = guard (left_ended || right_ended) blocked

abbrev pub wait_other : (left_ended right_ended : Bool) → Result (Unit {0})
wait_other left_ended right_ended = guard (left_ended && right_ended) blocked

-- The passing mode behind its write to the child: on to the next round, or out of the loop and to the
-- end of `main`.
abbrev pub pass_on :
    {L R : Type 0}
    → Status
    → (right_won left_ended right_ended : Bool) → L
    → R
    → Result (BattleState L R)
pass_on s right_won left_ended right_ended l r =
    let at_end = (wait_other left_ended right_ended >> ok (over l r)) in
    if stays s then ok (passing right_won l r) else at_end

module _ (fields : ℕ → Fields) (pid : Bytes → ℕ) (rounds : ℕ) where
  -- The pipes of battle `b` to a process with the given name and number.
  abbrev pub link_to : ℕ → Bytes → ℕ → Link
  link_to b target target_pid = record {
    file = battle_log b;
    id = b ∷ [];
    pid = pid (b ∷ []);
    target = target;
    target_pid = target_pid;
  }

  abbrev pub left_link : ℕ → Link
  left_link b = link_to b (graph b).left (pid (graph b).left)

  abbrev pub right_link : ℕ → Link
  right_link b = link_to b (graph b).right (pid (graph b).right)

  module _ {L R : Type 0} (b : ℕ) (lp : Peer L) (rp : Peer R) where
    -- The playing mode, for at most `n` rounds. The first test of its loop reads a flag that nothing
    -- has set; the model enters the loop.
    unfoldable pub play : (n : ℕ) → L → R → Outside → Result (Ended L R)
    unfolding fight read_log write_log
    play zero l r w = err unfinished
    play (suc n) l r w = do
      (s1, l1, w1) ← lp.send l w
      (s2, r1, w2) ← rp.send r (read_log (left_link b) s1 w1)
      (t1, t2) ← fight b s1 s2
      (l2, w3) ← lp.receive t1 l1 (write_log (left_link b) t1 (read_log (right_link b) s2 w2))
      (r2, w4) ← rp.receive t2 r1 (write_log (right_link b) t2 w3)
      let again = play n l2 r2 w4
      (if eqb_ℤ t1.battle_ended_flag (pos 1)
          then ok (record { stat1 = t1; stat2 = t2; left = l2; right = r2; world = w4 })
          else again)

    -- The passing mode up to its write to the parent.
    unfoldable pub pass_up :
        Bool → Link → L → R → Outside → Result (Status × BattleState L R × Outside)
    unfolding read_log write_log
    pass_up true up l r w = do
      (s, r1, w1) ← rp.send r w
      ok (s, passing true l r1, write_log up s (read_log (right_link b) s w1))
    pass_up false up l r w = do
      (s, l1, w1) ← lp.send l w
      ok (s, passing false l1 r, write_log up s (read_log (left_link b) s w1))

    -- With a test whether each child has exited, which `wait` asks for.
    module _ (left_ended : L → Bool) (right_ended : R → Bool) where
      -- From a battle at an end nothing comes.
      unfoldable pub send_battle :
          Link → BattleState L R → Outside → Result (Status × BattleState L R × Outside)
      unfolding play pass_up
      send_battle up (fresh l r) w = do
        e ← play rounds l r w
        wait_one (left_ended e.left) (right_ended e.right)
        let right_won = is_down e.stat1
        (if is_down (if right_won then e.stat2 else e.stat1)
            then err bad_access
            else pass_up right_won up e.left e.right e.world)
      send_battle up (passing right_won l r) w = pass_up right_won up l r w
      send_battle up (over l r) w = err bad_access

      -- The passing mode from its read from the parent on.
      unfoldable pub receive_battle :
          Link → Status → BattleState L R → Outside → Result (BattleState L R × Outside)
      unfolding read_log write_log
      receive_battle up s (passing true l r) w = do
        (r1, w1) ← rp.receive s r (write_log (right_link b) s (read_log up s w))
        next ← pass_on s true (left_ended l) (right_ended r1) l r1
        ok (next, w1)
      receive_battle up s (passing false l r) w = do
        (l1, w1) ← lp.receive s l (write_log (left_link b) s (read_log up s w))
        next ← pass_on s false (left_ended l1) (right_ended r) l1 r
        ok (next, w1)
      receive_battle up s (fresh l r) w = err exited
      receive_battle up s (over l r) w = err exited

  -- A player, whose first status waits for the part of `main` before its loop.
  unfoldable pub send_player :
      (id parent_pid : ℕ) → Phase → Outside → Result (Status × Phase × Outside)
  unfolding begin_player send_status
  send_player id parent_pid starting w = do
    (p, w1) ← begin_player fields pid id parent_pid w
    send_status p w1
  send_player id parent_pid (playing p) w = send_status (playing p) w
  send_player id parent_pid gone w = send_status gone w

  -- The process of a shape, whose parent is battle `parent`.
  unfoldable pub peer : (s : Shape) → (parent : ℕ) → Peer (ProcState s)
  unfolding send_player receive_status send_battle receive_battle
  peer (leaf k) parent = record {
    send = send_player k (pid (parent ∷ []));
    receive = receive_status;
  }
  peer (node b l r) parent =
      let up = link_to b (graph b).parent (pid (parent ∷ [])) in
      record {
        send = send_battle b (peer l b) (peer r b) (has_ended l) (has_ended r) up;
        receive = receive_battle b (peer l b) (peer r b) (has_ended l) (has_ended r) up;
      }

  -- `main` of the battle with no parent, to its end: what it prints, and the processes below it.
  unfoldable pub main_root :
      (b : ℕ) (l r : Shape) → Outside → Result (Bytes × ProcState l × ProcState r × Outside)
  unfolding play peer
  main_root b l r w = do
    e ← play b (peer l b) (peer r b) rounds (initial l) (initial r) w
    wait_one (has_ended l e.left) (has_ended r e.right)
    wait_other (has_ended l e.left) (has_ended r e.right)
    ok (codes "Champion is P" ++ decimal (winner e) ++ b'\n' ∷ [], e.left, e.right, e.world)

  -- `./battle A 0`: the children of battle A as `shape` finds them.
  unfoldable pub championship :
      Outside → Result (Bytes × ProcState left_shape × ProcState right_shape × Outside)
  unfolding main_root
  championship w = main_root b'A' left_shape right_shape w
