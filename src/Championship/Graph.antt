-- ===== src/Championship/Graph.antt =====
-- graph.c: the table of battles, and the tree of processes that it describes.
pub mod Laws
use sp.Base.{
  ℕ, zero, suc, ◌+◌, ◌-◌, ◌==◌, if◌then◌else◌, Bool, true, false, List, ◌∷◌, [], ◌++◌, Option, some,
  none, get_or,
}
use sp.Base.Int.{ℤ, pos, negsuc}
use sp.Base.Text.{Bytes, codes}
use sp.Base.Decimal.{value_of}
use sp.Championship.Status.{Attribute, fire, grass, water}

pub record Node : Type 0 where
  pub left_player : Bool
  pub right_player : Bool
  pub left : Bytes
  pub right : Bytes
  pub parent : Bytes
  pub attr : Attribute
  pub loser : ℤ
  pub loser_parent : ℕ

-- `graph` as a global variable starts.
abbrev pub no_node : Node
no_node = record {
  left_player = false;
  right_player = false;
  left = [];
  right = [];
  parent = [];
  attr = fire;
  loser = pos 0;
  loser_parent = 0;
}

abbrev pub Graph : Type 0
Graph = ℕ → Node

abbrev pub set_battle : ℕ → Bool → Bool → Bytes → Bytes → Bytes → Attribute → ℤ → ℕ → Graph → Graph
set_battle n left_p right_p left right parent attr loser loser_parent graph j =
    if j == n
    then record {
      left_player = left_p;
      right_player = right_p;
      left = left;
      right = right;
      parent = parent;
      attr = attr;
      loser = loser;
      loser_parent = loser_parent;
    }
    else graph j

-- No battle follows for the loser.
abbrev pub no_loser : ℤ
no_loser = negsuc 0

-- `graph` after `init`.
unfoldable pub graph : Graph
graph = set_battle b'N' true true (codes "11") (codes "12") (codes "L") water no_loser b' ' (
    set_battle b'M' true true (codes "8") (codes "9") (codes "K") fire no_loser b' ' (
      set_battle b'L' false true (codes "N") (codes "13") (codes "F") grass no_loser b' ' (
        set_battle b'K' false true (codes "M") (codes "10") (codes "F") grass no_loser b' ' (
          set_battle b'J' true true (codes "6") (codes "7") (codes "E") grass (pos 12) b'N' (
            set_battle b'I' true true (codes "4") (codes "5") (codes "E") water (pos 9) b'M' (
              set_battle b'H' true true (codes "2") (codes "3") (codes "D") grass (pos 11) b'N' (
                set_battle b'G' true true (codes "0") (codes "1") (codes "D") fire (pos 8) b'M' (
                  set_battle b'F' false false (codes "K") (codes "L") (codes "C") fire no_loser b' '
                    (set_battle b'E' false false (codes "I") (codes "J") (codes "B") fire (pos 13)
                      b'L'
                      (set_battle b'D' false false (codes "G") (codes "H") (codes "B") water
                        (pos 10) b'K'
                        (set_battle b'C' false true (codes "F") (codes "14") (codes "A") water
                          no_loser b' '
                          (set_battle b'B' false false (codes "D") (codes "E") (codes "A") grass
                            (pos 14) b'C'
                            (set_battle b'A' false false (codes "B") (codes "C") (codes " ") fire
                              no_loser b' ' (λ j. no_node))))))))))))))

-- The processes below a battle: a player, or a battle with its two children.
pub data Shape : Type 0 where
  leaf : ℕ → Shape
  node : ℕ → Shape → Shape → Shape

-- The child that `main` of a battle starts on one side; `fuel` bounds the depth.
unfoldable pub shape : (fuel : ℕ) → Bool → Bytes → Shape
unfolding graph value_of
shape fuel true name = leaf (value_of 0 name)
shape zero false name = leaf 0
shape (suc fuel) false name =
    let b = get_or name 0 0 in
    node b (shape fuel (graph b).left_player (graph b).left)
      (shape fuel (graph b).right_player (graph b).right)
