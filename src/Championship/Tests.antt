-- ===== src/Championship/Tests.antt =====
-- Runs of a championship, and the theorems at concrete input.
use sp.Base.{
  true, ◌++◌, ◌<◌, ◌≤◌, ◌^◌, ◌>>=◌, suc, zero, ℕ, ◌+◌, ◌≡◌, refl, [], ◌∷◌, none, arith, Result, ok,
  err, length, get_or,
}
use sp.Base.Int.{int_max, pos, ◌+ℤ◌, ◌-ℤ◌}
use sp.Base.Text.{Bytes, codes, strcmp}
use sp.Championship.Status.{Status, Outside, Attribute, fire, grass, water}
use sp.Base.Decimal.{decimal}
use sp.Championship.Player.{Fields, translate}
use sp.Championship.Graph.{shape, graph}
use sp.Championship.Graph.Laws.{HasParent, IsSide, graph-parent, graph-loser}
use sp.Championship.Status.{pipe_line}
use sp.Championship.Status.Lines.{length-pipe_line}
use sp.Championship.Battle.{fight, flip}
use sp.Championship.Battle.Blow.{IsFit}
use sp.Championship.Battle.Laws.{Fought, fight_lem, fight-flip}
use sp.Championship.Tree.Root.{LinesFit, championship_lem}
use sp.Championship.Tree.{championship, ProcState, left_shape, right_shape, has_ended}

abbrev field : ℕ → ℕ → Bytes → ℕ → Fields
field hp atk attr b = record {
  hp = pos hp;
  atk = pos atk;
  attr = attr;
  current_battle_id = b;
  battle_ended_flag = pos 0;
}

-- player_status.txt
abbrev player_status : ℕ → Fields
player_status id =
    get_or
      (field 7 2 (codes "FIRE") b'G'
        ∷ field 8 3 (codes "GRASS") b'G'
        ∷ field 4 4 (codes "FIRE") b'H'
        ∷ field 1 4 (codes "GRASS") b'H'
        ∷ field 12 2 (codes "WATER") b'I'
        ∷ field 3 4 (codes "GRASS") b'I'
        ∷ field 7 3 (codes "WATER") b'J'
        ∷ field 10 2 (codes "WATER") b'J'
        ∷ [])
      id (field 0 0 [] 0)

abbrev number : Bytes → ℕ
number name = 100 + get_or name 0 0

abbrev outset : Outside
outset = record { fifo = λ k. none; log = [] }

abbrev Outcome : Type 0
Outcome = Result (Bytes × ProcState left_shape × ProcState right_shape × Outside)

abbrev printed : Outcome → Bytes
printed (ok (s, p, q, w)) = s
printed (err e) = []

abbrev lines : Outcome → ℕ
lines (ok (s, p, q, w)) = length w.log
lines (err e) = 0

champion : printed (championship player_status number 20 outset) ≡ codes "Champion is P0\n"
unfolding championship shape ◌+ℤ◌ ◌-ℤ◌ translate strcmp decimal
champion = refl

-- The agents and the players write and read as often as their battles read and write.
logged : lines (championship player_status number 20 outset) ≡ 318
unfolding championship shape ◌+ℤ◌ ◌-ℤ◌ translate strcmp
logged = refl

abbrev fighter : ℕ → ℕ → ℕ → Attribute → ℕ → Status
fighter id hp atk attr b = record {
  real_player_id = id;
  hp = pos hp;
  atk = pos atk;
  attr = attr;
  current_battle_id = b;
  battle_ended_flag = pos 0;
}

IsFit-fighter :
    (id hp atk : ℕ) (attr : Attribute) (b : ℕ)
    → (id ≤ 7) × (1 ≤ hp) × (hp ≤ int_max) × (1 ≤ atk) × (atk < 2 ^ 30)
    → IsFit (fighter id hp atk attr b)
IsFit-fighter id hp atk attr b h = record {
  player = h.0;
  hp_sign = refl;
  alive = h.1;
  hp_int = h.2;
  atk_sign = refl;
  harms = h.3;
  atk_int = h.4;
  on = refl;
}

IsFit-line :
    (id : ℕ) (hp atk : ℕ) (attr : Bytes) (b : ℕ)
    → (id ≤ 7) × (1 ≤ hp) × (hp ≤ int_max) × (1 ≤ atk) × (atk < 2 ^ 30)
    → IsFit (fighter id hp atk (translate attr) b)
IsFit-line id hp atk attr b h = IsFit-fighter id hp atk (translate attr) b h

LinesFit-player_status : LinesFit player_status number
LinesFit-player_status zero h = IsFit-line 0 7 2 (codes "FIRE") b'G' (omega arith)
LinesFit-player_status (suc zero) h = IsFit-line 1 8 3 (codes "GRASS") b'G' (omega arith)
LinesFit-player_status (suc (suc zero)) h = IsFit-line 2 4 4 (codes "FIRE") b'H' (omega arith)
LinesFit-player_status (suc (suc (suc zero))) h =
    IsFit-line 3 1 4 (codes "GRASS") b'H' (omega arith)
LinesFit-player_status (suc (suc (suc (suc zero)))) h =
    IsFit-line 4 12 2 (codes "WATER") b'I' (omega arith)
LinesFit-player_status (suc (suc (suc (suc (suc zero))))) h =
    IsFit-line 5 3 4 (codes "GRASS") b'I' (omega arith)
LinesFit-player_status (suc (suc (suc (suc (suc (suc zero)))))) h =
    IsFit-line 6 7 3 (codes "WATER") b'J' (omega arith)
LinesFit-player_status (suc (suc (suc (suc (suc (suc (suc zero))))))) h =
    IsFit-line 7 10 2 (codes "WATER") b'J' (omega arith)
LinesFit-player_status (suc (suc (suc (suc (suc (suc (suc (suc k)))))))) h =
    absurd (omega (arith, h))

championship_lem_example :
    (k : ℕ) × (p : ProcState left_shape) × (q : ProcState right_shape) × (x : Outside)
    × (championship player_status number int_max outset
        ≡ ok (codes "Champion is P" ++ decimal k ++ b'\n' ∷ [], p, q, x))
    × (k ≤ 7)
    × (has_ended left_shape p ≡ true)
    × (has_ended right_shape q ≡ true)
championship_lem_example =
    championship_lem player_status number int_max outset LinesFit-player_status (omega arith)

fight_lem_example :
    Fought b'G'
      (fighter 0 7 2 fire b'G')
      (fighter 1 8 3 grass b'G')
      (fight b'G' (fighter 0 7 2 fire b'G') (fighter 1 8 3 grass b'G'))
fight_lem_example =
    fight_lem b'G' (fighter 0 7 2 fire b'G') (fighter 1 8 3 grass b'G')
      (IsFit-fighter 0 7 2 fire b'G' (omega arith)) (IsFit-fighter 1 8 3 grass b'G' (omega arith))

fight-flip_example :
    fight b'G' (fighter 1 7 3 grass b'G') (fighter 0 7 2 fire b'G')
    ≡ (fight b'G' (fighter 0 7 2 fire b'G') (fighter 1 7 3 grass b'G') >>= λ stats. ok (flip stats))
fight-flip_example =
    fight-flip b'G' (fighter 0 7 2 fire b'G') (fighter 1 7 3 grass b'G')
      (λ e k. absurd (omega (arith, k)))

graph-loser_example : (8 ≤ 14) × (14 ≤ 14) × IsSide 14 (graph (graph b'B').loser_parent)
unfolding graph
graph-loser_example = graph-loser b'B' 14 (omega arith) (omega arith) refl

graph-parent_example :
    HasParent b'C' (graph b'C').left_player (graph b'C').left
    × HasParent b'C' (graph b'C').right_player (graph b'C').right
graph-parent_example = graph-parent b'C' (omega arith) (omega arith)

length-pipe_line_example :
    length
      (pipe_line (codes "from") (codes "14") 4194304 (codes "C") 100 (fighter 7 12 2 water b'G'))
    < 80
length-pipe_line_example =
    length-pipe_line (codes "from") (codes "14") 4194304 (codes "C") 100 (fighter 7 12 2 water b'G')
      (omega arith) (omega arith) (omega arith) (omega arith) (omega arith) (omega arith)
      (omega arith, omega arith) (omega arith, omega arith)
