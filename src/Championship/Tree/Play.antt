-- ===== src/Championship/Tree/Play.antt =====
-- The playing mode of a battle that is not the last, between two players that are alive.
use sp.Base.{
  ℕ, zero, suc, ◌≤◌, ◌<◌, ◌≡◌, ◌≢◌, sym, ◌∙◌, ◌⊎◌, inl, inr, Bool, true, false, arith, ok,
}
use sp.Base.Int.{pos_part}
use sp.Base.Text.{Bytes}
use sp.Championship.Status.{Status, Outside, read_log, write_log, write_line}
use sp.Championship.Graph.{Shape}
use sp.Championship.Battle.{is_down, fight}
use sp.Championship.Battle.Blow.{IsFit}
use sp.Championship.Battle.Laws.{IsSame, Outcome, both, first, second, fight_lem}
use sp.Championship.Player.{Fields}
use sp.Championship.Player.Fifo.{Keeps, Keeps-same}
use sp.Championship.Tree.{Peer, ProcState, has_ended, Ended, play}
use sp.Championship.Tree.Live.{Live, IsKind, the_peer, send-Live, left_pipe, right_pipe}
use sp.Championship.Tree.Take.{
  Stands-up, down_lem, Handed, Follows, Keeps-trans, Handed-keep, receive_won, receive_lost,
}
use sp.Championship.Tree.Round.{both_round, last_round}

-- How the playing mode ends: one of the two is alive, the processes of the loser have
-- ended, and it has handed over to agent `k`.
abbrev pub Won : Bool → ℕ → (l r : Shape) → Outside → Ended (ProcState l) (ProcState r) → Type 0
Won real k l r w e =
    Keeps w.fifo e.world.fifo
    × Handed real e.world.fifo k
    × (((is_down e.stat1 ≡ false)
          × (has_ended r e.right ≡ true)
          × ((u : Status) × Live l e.left u × IsFit u))
        ⊎ ((is_down e.stat1 ≡ true)
            × (is_down e.stat2 ≡ false)
            × (has_ended l e.left ≡ true)
            × ((u : Status) × Live r e.right u × IsFit u)))

module _ (fields : ℕ → Fields) (pid : Bytes → ℕ) (rounds : ℕ) where
  module _ (b k : ℕ) (real : Bool) (l r : Shape) (more : b ≢ b'A') (follows : Follows real b k)
      (kind_l : IsKind real l) (kind_r : IsKind real r) where
    abbrev lp : Peer (ProcState l)
    lp = the_peer fields pid rounds l b

    abbrev rp : Peer (ProcState r)
    rp = the_peer fields pid rounds r b

    abbrev pub Plays : ℕ → ProcState l → ProcState r → (w v : Outside) → Type 0
    Plays n x y w v =
        (e : Ended (ProcState l) (ProcState r)) × (play fields pid rounds b lp rp n x y w ≡ ok e)
        × Won real k l r v e

    -- A round in which the processes offer the status of two players that are alive and fit.
    module _ (n : ℕ) (x x0 : ProcState l) (y y0 : ProcState r) (s1 s2 : Status) (w w1 w2 : Outside)
        (e1 : lp.send x w ≡ ok (s1, x0, w1))
        (e2 : rp.send y (read_log (left_pipe fields pid rounds b) s1 w1) ≡ ok (s2, y0, w2))
        (live1 : Live l x0 s1) (live2 : Live r y0 s2) (f1 : IsFit s1) (f2 : IsFit s2)
        (ih : (x : ProcState l) (y : ProcState r) (u1 u2 : Status) (v : Outside)
          → Live l x u1
          → Live r y u2
          → IsFit u1
          → IsFit u2
          → pos_part u1.hp < pos_part s1.hp
          → Plays n x y v v) where
      play_step :
          (t1 t2 : Status)
          → fight b s1 s2 ≡ ok (t1, t2)
          → IsSame s1 t1
          → IsSame s2 t2
          → t1.current_battle_id ≡ b
          → t2.current_battle_id ≡ b
          → Outcome s1.hp s2.hp t1 t2
          → Plays (suc n) x y w w2
      unfolding read_log write_log write_line
      play_step t1 t2 e same1 same2 c1 c2 (both st1 st2 less1 less2 off1 off2) =
          let (x1, y1, w4, eq, q, live3, live4, f3, f4) =
            both_round fields pid rounds b l r n x x0 y y0 s1 s2 t1 t2 w w1 w2 e1 e2 live1 live2 f1
              f2 e same1 same2 st1 st2 off1 off2 in
          let (end, eq2, won) = ih x1 y1 t1 t2 w4 live3 live4 f3 f4 less1 in
          (
            end,
            eq ∙ eq2,
            (
              Keeps-trans w2.fifo w4.fifo end.world.fifo (Keeps-same w2.fifo w4.fifo q) won.0,
              won.1,
              won.2,
            ),
          )
      play_step t1 t2 e same1 same2 c1 c2 (first st1 down on1 on2) =
          let v =
            write_log (left_pipe fields pid rounds b) t1
              (read_log (right_pipe fields pid rounds b) s2 w2) in
          let (x1, u1, w3, e3, q3, live3, fit3) =
            receive_won fields pid rounds l b x0 s1 t1 v live1 on1 (λ a. more (sym c1 ∙ a)) f1 same1
              st1 in
          let v3 = write_log (right_pipe fields pid rounds b) t2 w3 in
          let (y1, w4, e4, done, left) =
            receive_lost fields pid rounds r b y0 s2 t2 v3 live2 real b k on2 c2 more f2 same2 down
              follows kind_r in
          (
            record { stat1 = t1; stat2 = t2; left = x1; right = y1; world = w4 },
            last_round fields pid rounds b l r n x x0 y y0 s1 s2 t1 t2 w w1 w2 e1 e2 live1 live2 f1
                f2 e same1 same2 on1 e3 e4,
            (
              Keeps-trans w2.fifo w3.fifo w4.fifo (Keeps-same w2.fifo w3.fifo q3) left.0,
              left.1,
              inl (Stands-up s1.hp t1 st1, done, (u1, live3, fit3)),
            ),
          )
      play_step t1 t2 e same1 same2 c1 c2 (second st2 down on1 on2) =
          let v =
            write_log (left_pipe fields pid rounds b) t1
              (read_log (right_pipe fields pid rounds b) s2 w2) in
          let (x1, w3, e3, done, left) =
            receive_lost fields pid rounds l b x0 s1 t1 v live1 real b k on1 c1 more f1 same1 down
              follows kind_l in
          let v3 = write_log (right_pipe fields pid rounds b) t2 w3 in
          let (y1, u2, w4, e4, q4, live4, fit4) =
            receive_won fields pid rounds r b y0 s2 t2 v3 live2 on2 (λ a. more (sym c2 ∙ a)) f2
              same2 st2 in
          let kept = Keeps-same w3.fifo w4.fifo q4 in
          (
            record { stat1 = t1; stat2 = t2; left = x1; right = y1; world = w4 },
            last_round fields pid rounds b l r n x x0 y y0 s1 s2 t1 t2 w w1 w2 e1 e2 live1 live2 f1
                f2 e same1 same2 on1 e3 e4,
            (
              Keeps-trans w2.fifo w3.fifo w4.fifo left.0 kept,
              Handed-keep real k w3.fifo w4.fifo kept left.1,
              inr (down_lem t1 down, Stands-up s2.hp t2 st2, done, (u2, live4, fit4)),
            ),
          )

      pub first_round : Plays (suc n) x y w w2
      first_round =
          let (t1, t2, e, same1, same2, c1, c2, o) = fight_lem b s1 s2 f1 f2 in
          play_step t1 t2 e same1 same2 c1 c2 o

    -- Between two players that are alive and fit the playing mode ends within as many rounds as the
    -- left one has HP, and leaves exactly one of them alive.
    pub play_lem :
        (n : ℕ) (x : ProcState l) (y : ProcState r) (s1 s2 : Status) (w : Outside)
        → Live l x s1
        → Live r y s2
        → IsFit s1
        → IsFit s2
        → pos_part s1.hp ≤ n
        → Plays n x y w w
    unfolding read_log write_line
    play_lem zero x y s1 s2 w live1 live2 f1 f2 h = absurd (omega (arith, f1.alive, h))
    play_lem (suc n) x y s1 s2 w live1 live2 f1 f2 h =
        let (w1, e1, q1) = send-Live fields pid rounds l b x s1 w live1 in
        let v = read_log (left_pipe fields pid rounds b) s1 w1 in
        let (w2, e2, q2) = send-Live fields pid rounds r b y s2 v live2 in
        let (end, eq, won) =
          first_round n x x y y s1 s2 w w1 w2 e1 e2 live1 live2 f1 f2
            (λ x y u1 u2 v live1 live2 f1 f2 less.
              play_lem n x y u1 u2 v live1 live2 f1 f2 (omega (arith, h, less))) in
        (
          end,
          eq,
          (
            Keeps-trans w.fifo w2.fifo end.world.fifo (Keeps-same w.fifo w2.fifo (q2 ∙ q1)) won.0,
            won.1,
            won.2,
          ),
        )
