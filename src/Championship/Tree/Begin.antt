-- ===== src/Championship/Tree/Begin.antt =====
-- What the players of a shape begin with, and that each then plays.
use sp.Base.{
  ℕ, suc, ◌-◌, ◌≤◌, ◌≡◌, ◌≢◌, refl, ap, ◌∙◌, Bool, true, false, if◌then◌else◌, arith, ok, Option,
}
use sp.Base.Int.{pos, pos_part}
use sp.Base.Text.{Bytes, codes}
use sp.Base.Decimal.{decimal}
use sp.Championship.Status.{Status, Outside, write_line}
use sp.Championship.Graph.{graph, Shape, leaf, node}
use sp.Championship.Battle.Blow.{IsFit}
use sp.Championship.Player.{
  Fields, Player, playing, is_real, begin_player, take_over, new_player, real_status, fifo_line,
  log_file, test_flag,
}
use sp.Championship.Player.Laws.{IsKept, test_flag_off}
use sp.Championship.Player.Fifo.{HasFit, Keeps}
use sp.Championship.Tree.Take.{Handed, Follows, Handed-keep}

-- The agent that goes on for the loser of battle `b`.
abbrev pub agent_of : ℕ → ℕ
agent_of b = pos_part (graph b).loser

-- No battle of the shape is the last of all, and each has an agent for a player that loses.
abbrev pub WellFed : Bool → Shape → Type 0
WellFed real (leaf k) = Unit
WellFed real (node b l r) =
    (b ≢ b'A') × Follows real b (agent_of b) × WellFed real l × WellFed real r

-- The FIFOs that the losers of a shape have written.
abbrev pub HandedAll : Bool → Shape → (ℕ → Option Status) → Type 0
HandedAll real (leaf k) fifo = Unit
HandedAll real (node b l r) fifo =
    Handed real fifo (agent_of b) × HandedAll real l fifo × HandedAll real r fifo

pub HandedAll-keep :
    (real : Bool) (s : Shape) (f g : ℕ → Option Status)
    → Keeps f g
    → HandedAll real s f
    → HandedAll real s g
HandedAll-keep real (leaf k) f g keeps h = tt
HandedAll-keep real (node b l r) f g keeps (a, x, y) = (
  Handed-keep real (agent_of b) f g keeps a,
  HandedAll-keep real l f g keeps x,
  HandedAll-keep real r f g keeps y,
)

pub suc_pred : (n : ℕ) → 1 ≤ n → suc (n - 1) ≡ n
suc_pred n h = omega arith

module _ (fields : ℕ → Fields) (pid : Bytes → ℕ) where
  -- What the player of a leaf begins with: its line of the file, or what is in its FIFO.
  abbrev pub Begins : Bool → ℕ → (ℕ → Option Status) → Type 0
  Begins true k fifo = IsFit (real_status fields pid k)
  Begins false k fifo = HasFit fifo k

  abbrev pub BeginsAll : Bool → Shape → (ℕ → Option Status) → Type 0
  BeginsAll real (leaf k) fifo = Begins real k fifo
  BeginsAll real (node b l r) fifo = BeginsAll real l fifo × BeginsAll real r fifo

  pub BeginsAll-keep :
      (real : Bool) (s : Shape) (f g : ℕ → Option Status)
      → Keeps f g
      → BeginsAll real s f
      → BeginsAll real s g
  BeginsAll-keep true (leaf k) f g keeps h = h
  BeginsAll-keep false (leaf k) f g keeps h = keeps k h
  BeginsAll-keep real (node b l r) f g keeps (x, y) =
      (BeginsAll-keep real l f g keeps x, BeginsAll-keep real r f g keeps y)

  new_player-IsKept :
      (id target parent_pid : ℕ) (s : Status)
      → IsFit s
      → IsKept (new_player fields pid id target parent_pid s).origin_hp s
  new_player-IsKept id target parent_pid s f = (f.hp_sign, omega arith, f.hp_int)

  -- A player begins its loop with the status of its line, an agent with that of its FIFO.
  pub begin_lem :
      (real : Bool) (k parent_pid : ℕ) (w : Outside)
      → is_real k ≡ real
      → Begins real k w.fifo
      → (q : Player) × (x : Outside) × (begin_player fields pid k parent_pid w ≡ ok (playing q, x))
        × (x.fifo ≡ w.fifo)
        × (q.id ≡ k)
        × IsFit q.status
        × IsKept q.origin_hp q.status
  unfolding begin_player take_over write_line
  begin_lem true k parent_pid w kind f =
      let q =
        new_player fields pid k (real_status fields pid k).current_battle_id parent_pid
          (real_status fields pid k) in
      (
        q,
        w,
        ap (λ b. if b then test_flag q w else take_over fields pid k parent_pid (w.fifo k) w) kind
            ∙ test_flag_off q (real_status fields pid k) w f.on,
        refl,
        refl,
        f,
        new_player-IsKept k (real_status fields pid k).current_battle_id parent_pid
            (real_status fields pid k) f,
      )
  begin_lem false k parent_pid w kind (s, e, f) =
      let q = new_player fields pid k (graph s.current_battle_id).loser_parent parent_pid s in
      let line = fifo_line (codes "from") k (pid (decimal k)) (pos s.real_player_id) s in
      let x = write_line (log_file s.real_player_id) line w in
      (
        q,
        x,
        ap
              (λ b.
                if b
                then test_flag
                    (new_player fields pid k (real_status fields pid k).current_battle_id parent_pid
                      (real_status fields pid k))
                    w
                else take_over fields pid k parent_pid (w.fifo k) w)
              kind
            ∙ ap (λ o. take_over fields pid k parent_pid o w) e
            ∙ test_flag_off q s x f.on,
        refl,
        refl,
        f,
        new_player-IsKept k (graph s.current_battle_id).loser_parent parent_pid s f,
      )
