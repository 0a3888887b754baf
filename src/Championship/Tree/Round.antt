-- ===== src/Championship/Tree/Round.antt =====
-- One round of the playing mode between two players that are alive.
use sp.Base.{ℕ, suc, ◌≡◌, ap, ◌∙◌, subst, if◌then◌else◌, arith, ok}
use sp.Base.Int.{pos, pos_part, neg_part, eqb_ℤ}
use sp.Base.Text.{Bytes}
use sp.Championship.Status.{Status, Outside, read_log, write_log, write_line}
use sp.Championship.Graph.{Shape}
use sp.Championship.Battle.{fight}
use sp.Championship.Battle.Blow.{IsFit}
use sp.Championship.Battle.Laws.{IsSame, Stands}
use sp.Championship.Player.{Fields}
use sp.Championship.Tree.{Peer, ProcState, play, left_link, right_link}
use sp.Championship.Tree.Live.{Live, the_peer, left_pipe, right_pipe}
use sp.Championship.Tree.Take.{receive_on}

-- The status of a player that stands after a round that is not the last.
still-IsFit :
    (s t : Status) → IsFit s → IsSame s t → Stands s.hp t → t.battle_ended_flag ≡ pos 0 → IsFit t
still-IsFit s t f same stands off = record {
  player = omega (arith, same.0, f.player);
  hp_sign = stands.0;
  alive = stands.1;
  hp_int = omega (arith, stands.2, f.hp_int);
  atk_sign = ap neg_part same.1 ∙ f.atk_sign;
  harms = omega (arith, ap pos_part same.1, f.harms);
  atk_int = omega (arith, ap pos_part same.1, f.atk_int);
  on = off;
}

module _ (fields : ℕ → Fields) (pid : Bytes → ℕ) (rounds : ℕ) where
  -- A round, from what its five steps return.
  module _ {L R : Type 0} (b : ℕ) (lp : Peer L) (rp : Peer R) (n : ℕ) where
    module _ {l l1 l2 : L} {r r1 r2 : R} {w w1 w2 w3 w4 : Outside} {s1 s2 t1 t2 : Status} where
      play_round :
          lp.send l w ≡ ok (s1, l1, w1)
          → rp.send r (read_log (left_link fields pid rounds b) s1 w1) ≡ ok (s2, r1, w2)
          → fight b s1 s2 ≡ ok (t1, t2)
          → lp.receive t1 l1 (
              write_log
                (left_link fields pid rounds b)
                t1
                (read_log (right_link fields pid rounds b) s2 w2))
            ≡ ok (l2, w3)
          → rp.receive t2 r1 (write_log (right_link fields pid rounds b) t2 w3) ≡ ok (r2, w4)
          → play fields pid rounds b lp rp (suc n) l r w ≡ (
              if eqb_ℤ t1.battle_ended_flag (pos 1)
              then ok (record { stat1 = t1; stat2 = t2; left = l2; right = r2; world = w4 })
              else play fields pid rounds b lp rp n l2 r2 w4)
      unfolding play
      play_round a b c d e = rw (a, b, c, d, e)

  -- A round in which the processes offer the status of two players that are alive and fit, and both
  -- stand: the loop goes on with them.
  module _ (b : ℕ) (l r : Shape) (n : ℕ) (x x0 : ProcState l) (y y0 : ProcState r)
      (s1 s2 t1 t2 : Status) (w w1 w2 : Outside)
      (e1 : (the_peer fields pid rounds l b).send x w ≡ ok (s1, x0, w1))
      (e2 : (the_peer fields pid rounds r b).send y (read_log (left_pipe fields pid rounds b) s1 w1)
        ≡ ok (s2, y0, w2))
      (live1 : Live l x0 s1) (live2 : Live r y0 s2) (f1 : IsFit s1) (f2 : IsFit s2)
      (e : fight b s1 s2 ≡ ok (t1, t2)) (same1 : IsSame s1 t1) (same2 : IsSame s2 t2) where
    abbrev lp : Peer (ProcState l)
    lp = the_peer fields pid rounds l b

    abbrev rp : Peer (ProcState r)
    rp = the_peer fields pid rounds r b

    pub both_round :
        Stands s1.hp t1
        → Stands s2.hp t2
        → t1.battle_ended_flag ≡ pos 0
        → t2.battle_ended_flag ≡ pos 0
        → (x1 : ProcState l) × (y1 : ProcState r) × (w4 : Outside) × (play fields pid rounds b lp rp
              (suc n)
              x
              y
              w
            ≡ play fields pid rounds b lp rp n x1 y1 w4)
          × (w4.fifo ≡ w2.fifo)
          × Live l x1 t1
          × Live r y1 t2
          × IsFit t1
          × IsFit t2
    unfolding read_log write_log write_line
    both_round st1 st2 off1 off2 =
        let v =
          write_log (left_pipe fields pid rounds b) t1
            (read_log (right_pipe fields pid rounds b) s2 w2) in
        let (x1, u1, w3, e3, q3, live3, is1) =
          receive_on fields pid rounds l b x0 s1 t1 v live1 off1 st1 in
        let v3 = write_log (right_pipe fields pid rounds b) t2 w3 in
        let (y1, u2, w4, e4, q4, live4, is2) =
          receive_on fields pid rounds r b y0 s2 t2 v3 live2 off2 st2 in
        (
          x1,
          y1,
          w4,
          play_round b lp rp n e1 e2 e e3 e4
              ∙ ap
                  (λ a.
                    if eqb_ℤ a (pos 1)
                    then ok (record { stat1 = t1; stat2 = t2; left = x1; right = y1; world = w4 })
                    else play fields pid rounds b lp rp n x1 y1 w4)
                  off1,
          q4 ∙ q3,
          subst (Live l x1) is1 live3,
          subst (Live r y1) is2 live4,
          still-IsFit s1 t1 f1 same1 st1 off1,
          still-IsFit s2 t2 f2 same2 st2 off2,
        )

    -- A round in which a player falls, from what the processes make of it.
    pub last_round :
        {x1 : ProcState l} {y1 : ProcState r} {w3 w4 : Outside}
        → t1.battle_ended_flag ≡ pos 1
        → lp.receive t1 x0 (
            write_log
              (left_pipe fields pid rounds b)
              t1
              (read_log (right_pipe fields pid rounds b) s2 w2))
          ≡ ok (x1, w3)
        → rp.receive t2 y0 (write_log (right_pipe fields pid rounds b) t2 w3) ≡ ok (y1, w4)
        → play fields pid rounds b lp rp (suc n) x y w
          ≡ ok (record { stat1 = t1; stat2 = t2; left = x1; right = y1; world = w4 })
    last_round {x1} {y1} {w3} {w4} on e3 e4 =
        play_round b lp rp n e1 e2 e e3 e4
        ∙ ap
            (λ a.
              if eqb_ℤ a (pos 1)
              then ok (record { stat1 = t1; stat2 = t2; left = x1; right = y1; world = w4 })
              else play fields pid rounds b lp rp n x1 y1 w4)
            on
