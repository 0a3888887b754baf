-- ===== src/Championship/Tree/Root.antt =====
-- The last battle, and with it the whole championship.
use sp.Base.{
  ℕ, zero, suc, ◌-◌, ◌≤◌, ◌<◌, ◌≡◌, refl, ap, ◌∙◌, subst, Bool, true, false, if_lem, [], ◌∷◌, ◌++◌,
  arith, Result, ok, ◌>>=◌, ◌>>◌, Option,
}
use sp.Base.Int.{pos, pos_part, int_max}
use sp.Base.Text.{Bytes, codes}
use sp.Base.Decimal.{decimal}
use sp.Championship.Status.{Status, Outside, read_log, write_log, write_line}
use sp.Championship.Graph.{graph, Shape, shape}
use sp.Championship.Battle.{is_down, fight}
use sp.Championship.Battle.Blow.{IsFit}
use sp.Championship.Battle.Laws.{IsSame, Outcome, both, first, second, fight_lem}
use sp.Championship.Player.{Fields, real_status}
use sp.Championship.Tree.{
  left_shape, right_shape, has_ended, wait_one, wait_other, Peer, ProcState, initial, Ended, play,
  winner, main_root, championship,
}
use sp.Championship.Tree.Live.{Live, IsKind, the_peer, send-Live, left_pipe, right_pipe}
use sp.Championship.Tree.Take.{receive_final}
use sp.Championship.Tree.Round.{both_round, last_round}
use sp.Championship.Tree.Begin.{WellFed, HandedAll, BeginsAll, suc_pred}
use sp.Championship.Tree.Start.{Offers, initial-Offers}

module _ (fields : ℕ → Fields) (pid : Bytes → ℕ) (rounds : ℕ) where
  module _ (b : ℕ) (real_l real_r : Bool) (l r : Shape) (here : b ≡ b'A') (kind_l : IsKind real_l l)
      (kind_r : IsKind real_r r) where
    abbrev lp : Peer (ProcState l)
    lp = the_peer fields pid rounds l b

    abbrev rp : Peer (ProcState r)
    rp = the_peer fields pid rounds r b

    -- The playing mode ends, with it all processes on both sides, and one of the players 0 to 7 is the
    -- winner.
    abbrev pub Finishes : ℕ → ProcState l → ProcState r → Outside → Type 0
    Finishes n x y w =
        (e : Ended (ProcState l) (ProcState r)) × (play fields pid rounds b lp rp n x y w ≡ ok e)
        × (winner e ≤ 7)
        × (has_ended l e.left ≡ true)
        × (has_ended r e.right ≡ true)

    module _ (n : ℕ) (x x0 : ProcState l) (y y0 : ProcState r) (s1 s2 : Status) (w w1 w2 : Outside)
        (e1 : lp.send x w ≡ ok (s1, x0, w1))
        (e2 : rp.send y (read_log (left_pipe fields pid rounds b) s1 w1) ≡ ok (s2, y0, w2))
        (live1 : Live l x0 s1) (live2 : Live r y0 s2) (f1 : IsFit s1) (f2 : IsFit s2)
        (ih : (x : ProcState l) (y : ProcState r) (u1 u2 : Status) (v : Outside)
          → Live l x u1
          → Live r y u2
          → IsFit u1
          → IsFit u2
          → pos_part u1.hp < pos_part s1.hp
          → Finishes n x y v) where
      final_round :
          (t1 t2 : Status)
          → fight b s1 s2 ≡ ok (t1, t2)
          → IsSame s1 t1
          → IsSame s2 t2
          → t1.current_battle_id ≡ b
          → t2.current_battle_id ≡ b
          → t1.battle_ended_flag ≡ pos 1
          → t2.battle_ended_flag ≡ pos 1
          → Finishes (suc n) x y w
      final_round t1 t2 e same1 same2 c1 c2 on1 on2 =
          let v =
            write_log (left_pipe fields pid rounds b) t1
              (read_log (right_pipe fields pid rounds b) s2 w2) in
          let (x1, w3, e3, done_l, q3) =
            receive_final fields pid rounds l b x0 s1 t1 v live1 real_l on1 (c1 ∙ here) kind_l in
          let v3 = write_log (right_pipe fields pid rounds b) t2 w3 in
          let (y1, w4, e4, done_r, q4) =
            receive_final fields pid rounds r b y0 s2 t2 v3 live2 real_r on2 (c2 ∙ here) kind_r in
          (
            record { stat1 = t1; stat2 = t2; left = x1; right = y1; world = w4 },
            last_round fields pid rounds b l r n x x0 y y0 s1 s2 t1 t2 w w1 w2 e1 e2 live1 live2 f1
                f2 e same1 same2 on1 e3 e4,
            if_lem (λ (s : Status). s.real_player_id ≤ 7) (is_down t1)
                (omega (arith, same2.0, f2.player)) (omega (arith, same1.0, f1.player)),
            done_l,
            done_r,
          )

      finish_step :
          (t1 t2 : Status)
          → fight b s1 s2 ≡ ok (t1, t2)
          → IsSame s1 t1
          → IsSame s2 t2
          → t1.current_battle_id ≡ b
          → t2.current_battle_id ≡ b
          → Outcome s1.hp s2.hp t1 t2
          → Finishes (suc n) x y w
      finish_step t1 t2 e same1 same2 c1 c2 (both st1 st2 less1 less2 off1 off2) =
          let (x1, y1, w4, eq, q, live3, live4, f3, f4) =
            both_round fields pid rounds b l r n x x0 y y0 s1 s2 t1 t2 w w1 w2 e1 e2 live1 live2 f1
              f2 e same1 same2 st1 st2 off1 off2 in
          let (end, eq2, won, done_l, done_r) = ih x1 y1 t1 t2 w4 live3 live4 f3 f4 less1 in
          (end, eq ∙ eq2, won, done_l, done_r)
      finish_step t1 t2 e same1 same2 c1 c2 (first st1 down on1 on2) =
          final_round t1 t2 e same1 same2 c1 c2 on1 on2
      finish_step t1 t2 e same1 same2 c1 c2 (second st2 down on1 on2) =
          final_round t1 t2 e same1 same2 c1 c2 on1 on2

      final_first : Finishes (suc n) x y w
      final_first =
          let (t1, t2, e, same1, same2, c1, c2, o) = fight_lem b s1 s2 f1 f2 in
          finish_step t1 t2 e same1 same2 c1 c2 o

    final_lem :
        (n : ℕ) (x : ProcState l) (y : ProcState r) (s1 s2 : Status) (w : Outside)
        → Live l x s1
        → Live r y s2
        → IsFit s1
        → IsFit s2
        → pos_part s1.hp ≤ n
        → Finishes n x y w
    final_lem zero x y s1 s2 w live1 live2 f1 f2 h = absurd (omega (arith, f1.alive, h))
    final_lem (suc n) x y s1 s2 w live1 live2 f1 f2 h =
        let (w1, e1, q1) = send-Live fields pid rounds l b x s1 w live1 in
        let v = read_log (left_pipe fields pid rounds b) s1 w1 in
        let (w2, e2, q2) = send-Live fields pid rounds r b y s2 v live2 in
        final_first n x x y y s1 s2 w w1 w2 e1 e2 live1 live2 f1 f2
          (λ x y u1 u2 v live1 live2 g1 g2 less.
            final_lem n x y u1 u2 v live1 live2 g1 g2 (omega (arith, h, less)))

  -- `main` behind its playing mode.
  abbrev told :
      (l r : Shape)
      → Ended (ProcState l) (ProcState r)
      → Result (Bytes × ProcState l × ProcState r × Outside)
  told l r e =
      ok (codes "Champion is P" ++ decimal (winner e) ++ b'\n' ∷ [], e.left, e.right, e.world)

  abbrev close :
      (l r : Shape)
      → Ended (ProcState l) (ProcState r)
      → Result (Bytes × ProcState l × ProcState r × Outside)
  close l r e =
      wait_one (has_ended l e.left) (has_ended r e.right)
      >> (wait_other (has_ended l e.left) (has_ended r e.right) >> told l r e)

  module _ (enough : int_max ≤ rounds) where
    -- `main` of the last battle, from what its children offer.
    root_lem :
        (l r : Shape) (w : Outside)
        → IsKind true l
        → IsKind false r
        → Offers fields pid rounds enough true l b'A' w
        → ((v : Outside) → HandedAll true l v.fifo → Offers fields pid rounds enough false r b'A' v)
        → (k : ℕ) × (p : ProcState l) × (q : ProcState r) × (x : Outside) × (main_root fields pid
              rounds b'A' l r w
            ≡ ok (codes "Champion is P" ++ decimal k ++ b'\n' ∷ [], p, q, x))
          × (k ≤ 7)
          × (has_ended l p ≡ true)
          × (has_ended r q ≡ true)
    unfolding main_root read_log write_line
    root_lem l r w kind_l kind_r (s1, x0, w1, e1, live1, g1, k1, h1) right =
        let v = read_log (left_pipe fields pid rounds b'A') s1 w1 in
        let (s2, y0, w2, e2, live2, g2, k2, h2) = right v h1 in
        let n = rounds - 1 in
        let (e, eq, won, done_l, done_r) =
          final_first b'A' true false l r refl kind_l kind_r n (initial l) x0 (initial r) y0 s1 s2 w
            w1 w2 e1 e2 live1 live2 g1 g2
            (λ x y u1 u2 v live1 live2 f1 f2 less.
              final_lem b'A' true false l r refl kind_l kind_r n x y u1 u2 v live1 live2 f1 f2
                (omega (arith, less, g1.hp_int, enough))) in
        (
          winner e,
          e.left,
          e.right,
          e.world,
          ap (λ q. q >>= close l r)
                (subst
                  (λ m.
                    play fields pid rounds b'A' (the_peer fields pid rounds l b'A')
                      (the_peer fields pid rounds r b'A') m (initial l) (initial r) w
                    ≡ ok e)
                  (suc_pred rounds (omega (arith, enough))) eq)
              ∙ ap
                  (λ c.
                    wait_one c (has_ended r e.right)
                    >> (wait_other c (has_ended r e.right) >> told l r e))
                  done_l
              ∙ ap (λ c. wait_one true c >> (wait_other true c >> told l r e)) done_r,
          won,
          done_l,
          done_r,
        )

left-IsKind : IsKind true left_shape
unfolding shape graph
left-IsKind = ground arith

right-IsKind : IsKind false right_shape
unfolding shape graph
right-IsKind = ground arith

left_fed : WellFed true left_shape
unfolding shape graph
left_fed = ground arith

right_fed : WellFed false right_shape
unfolding shape graph
right_fed = ground arith

-- The lines of the players 0 to 7 are fit for a championship.
abbrev pub LinesFit : (ℕ → Fields) → (Bytes → ℕ) → Type 0
LinesFit fields pid = (k : ℕ) → k ≤ 7 → IsFit (real_status fields pid k)

left_begins :
    (fields : ℕ → Fields) (pid : Bytes → ℕ) (fifo : ℕ → Option Status)
    → LinesFit fields pid
    → BeginsAll fields pid true left_shape fifo
unfolding shape graph
left_begins fields pid fifo h = (
  ((h 0 (omega arith), h 1 (omega arith)), (h 2 (omega arith), h 3 (omega arith))),
  ((h 4 (omega arith), h 5 (omega arith)), (h 6 (omega arith), h 7 (omega arith))),
)

-- The losers on the left hand over to every agent on the right.
right_begins :
    (fields : ℕ → Fields) (pid : Bytes → ℕ) (fifo : ℕ → Option Status)
    → HandedAll true left_shape fifo
    → BeginsAll fields pid false right_shape fifo
unfolding shape graph
right_begins fields pid fifo (b, (d, (g, g0, g1), (h, h0, h1)), (e, (i, i0, i1), (j, j0, j1))) =
    ((((g, i), d), ((h, j), e)), b)

-- If the players' lines are fit and the model gives each playing mode INT_MAX rounds, the championship
-- comes to its end, whatever the FIFOs hold at first: nothing stops on a fault, runs out of rounds or
-- waits for ever, what battle A prints names one of the players 0 to 7, and by the end of battle A
-- every battle and every player and agent below it has come to the end of its `main`.
pub championship_lem :
    (fields : ℕ → Fields) (pid : Bytes → ℕ) (rounds : ℕ) (w : Outside)
    → LinesFit fields pid
    → int_max ≤ rounds
    → (k : ℕ) × (p : ProcState left_shape) × (q : ProcState right_shape) × (x : Outside)
      × (championship fields pid rounds w
          ≡ ok (codes "Champion is P" ++ decimal k ++ b'\n' ∷ [], p, q, x))
      × (k ≤ 7)
      × (has_ended left_shape p ≡ true)
      × (has_ended right_shape q ≡ true)
unfolding championship
championship_lem fields pid rounds w fit enough =
    root_lem fields pid rounds enough left_shape right_shape w left-IsKind right-IsKind
      (initial-Offers fields pid rounds enough true left_shape b'A' w left-IsKind left_fed
        (left_begins fields pid w.fifo fit))
      (λ v handed.
        initial-Offers fields pid rounds enough false right_shape b'A' v right-IsKind right_fed
          (right_begins fields pid v.fifo handed))
