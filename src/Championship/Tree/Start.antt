-- ===== src/Championship/Tree/Start.antt =====
-- From the start of its processes to the first status that a battle sends to its parent.
use sp.Base.{
  ℕ, ◌-◌, ◌≤◌, ◌≡◌, refl, ap, ◌∙◌, subst, inl, inr, Bool, true, false, if◌then◌else◌, [], ◌∷◌,
  arith, Result, ok, err, bad_access, blocked, guard, ◌||◌, ◌>>=◌, ◌>>◌,
}
use sp.Base.Int.{int_max}
use sp.Base.Text.{Bytes}
use sp.Championship.Status.{Status, Outside, read_log, write_log, write_line}
use sp.Championship.Graph.{Shape, leaf, node}
use sp.Championship.Battle.{is_down}
use sp.Championship.Battle.Blow.{IsFit}
use sp.Championship.Player.{Fields, playing, send_status}
use sp.Championship.Player.Fifo.{Keeps, Keeps-same}
use sp.Championship.Tree.{
  BattleState, passing, ProcState, has_ended, wait_one, initial, peer, Ended, play, send_player,
  send_battle, pass_up,
}
use sp.Championship.Tree.Live.{Live, IsKind, the_peer, up_link, send-Live, left_pipe, right_pipe}
use sp.Championship.Tree.Take.{Keeps-trans, Handed-keep}
use sp.Championship.Tree.Play.{Won, first_round, play_lem}
use sp.Championship.Tree.Begin.{
  agent_of, WellFed, HandedAll, HandedAll-keep, suc_pred, BeginsAll, BeginsAll-keep, begin_lem,
}

or_true : (c : Bool) → (c || true) ≡ true
or_true true = refl
or_true false = refl

module _ (fields : ℕ → Fields) (pid : Bytes → ℕ) where
  module _ (rounds : ℕ) (enough : int_max ≤ rounds) where
    -- The first status of a process: it is that of a player that is alive, and by then every battle of
    -- the shape is over, and every loser has handed over to its agent.
    abbrev pub Offers : Bool → (s : Shape) → ℕ → Outside → Type 0
    Offers real s parent w =
        (st : Status) × (p : ProcState s) × (x : Outside) × ((the_peer fields pid rounds s
              parent).send
            (initial s) w
          ≡ ok (st, p, x))
        × Live s p st
        × IsFit st
        × Keeps w.fifo x.fifo
        × HandedAll real s x.fifo

    -- The playing mode from the start of both children.
    pub play_first :
        (real : Bool) (b : ℕ) (l r : Shape) (w : Outside)
        → IsKind real l
        → IsKind real r
        → WellFed real (node b l r)
        → Offers real l b w
        → ((v : Outside) → Keeps w.fifo v.fifo → Offers real r b v)
        → (e : Ended (ProcState l) (ProcState r)) × (play fields pid rounds b
              (the_peer fields pid rounds l b)
              (the_peer fields pid rounds r b)
              rounds
              (initial l)
              (initial r)
              w
            ≡ ok e)
          × Won real (agent_of b) l r w e
          × HandedAll real l e.world.fifo
          × HandedAll real r e.world.fifo
    unfolding read_log write_line
    play_first real b l r w kind_l kind_r (more, follows, fed_l, fed_r)
          (s1, x0, w1, e1, live1, g1, k1, h1) right =
        let v = read_log (left_pipe fields pid rounds b) s1 w1 in
        let (s2, y0, w2, e2, live2, f2, k2, h2) = right v k1 in
        let n = rounds - 1 in
        let (e, eq, won) =
          first_round fields pid rounds b (agent_of b) real l r more follows kind_l kind_r n
            (initial l) x0 (initial r) y0 s1 s2 w w1 w2 e1 e2 live1 live2 g1 f2
            (λ x y u1 u2 v live1 live2 f1 f2 less.
              play_lem fields pid rounds b (agent_of b) real l r more follows kind_l kind_r n x y u1
                u2 v live1 live2 f1 f2 (omega (arith, less, g1.hp_int, enough))) in
        let after = Keeps-trans w1.fifo w2.fifo e.world.fifo k2 won.0 in
        (
          e,
          subst
              (λ m.
                play fields pid rounds b (the_peer fields pid rounds l b)
                  (the_peer fields pid rounds r b) m (initial l) (initial r) w
                ≡ ok e)
              (suc_pred rounds (omega (arith, enough))) eq,
          (Keeps-trans w.fifo w1.fifo e.world.fifo k1 after, won.1, won.2),
          HandedAll-keep real l w1.fifo e.world.fifo after h1,
          HandedAll-keep real r w2.fifo e.world.fifo won.0 h2,
        )

    -- The passing mode up to the write to the parent, and what leads to it.
    abbrev up_with :
        (b parent : ℕ) (l r : Shape)
        → Bool
        → Ended (ProcState l) (ProcState r)
        → Result (Status × BattleState (ProcState l) (ProcState r) × Outside)
    up_with b parent l r right_won e =
        pass_up fields pid rounds b (the_peer fields pid rounds l b)
          (the_peer fields pid rounds r b) right_won (up_link fields pid rounds b parent) e.left
          e.right e.world

    abbrev lead_up :
        (b parent : ℕ) (l r : Shape)
        → Ended (ProcState l) (ProcState r)
        → Result (Status × BattleState (ProcState l) (ProcState r) × Outside)
    lead_up b parent l r e =
        if is_down (if is_down e.stat1 then e.stat2 else e.stat1)
        then err bad_access
        else up_with b parent l r (is_down e.stat1) e

    -- The same behind the first `wait`.
    abbrev go_up :
        (b parent : ℕ) (l r : Shape)
        → Ended (ProcState l) (ProcState r)
        → Result (Status × BattleState (ProcState l) (ProcState r) × Outside)
    go_up b parent l r e =
        wait_one (has_ended l e.left) (has_ended r e.right) >> lead_up b parent l r e

    waited :
        (b parent : ℕ) (l r : Shape) (e : Ended (ProcState l) (ProcState r))
        → (has_ended l e.left || has_ended r e.right) ≡ true
        → go_up b parent l r e ≡ lead_up b parent l r e
    waited b parent l r e h = ap (λ c. guard c blocked >> lead_up b parent l r e) h

    -- What the winner of battle `b` is to the parent.
    send_winner :
        (real : Bool) (b parent : ℕ) (l r : Shape) (w : Outside)
        (e : Ended (ProcState l) (ProcState r))
        → play fields pid rounds b
            (the_peer fields pid rounds l b)
            (the_peer fields pid rounds r b)
            rounds
            (initial l)
            (initial r)
            w
          ≡ ok e
        → Won real (agent_of b) l r w e
        → HandedAll real l e.world.fifo
        → HandedAll real r e.world.fifo
        → Offers real (node b l r) parent w
    unfolding peer send_battle pass_up read_log write_log write_line
    send_winner real b parent l r w e eq (keeps, handed, inl (up, done, (u, live, fit))) hl hr =
        let (x, e2, q) = send-Live fields pid rounds l b e.left u e.world live in
        let after = Keeps-same e.world.fifo x.fifo q in
        (
          u,
          passing false e.left e.right,
          write_log (up_link fields pid rounds b parent) u
              (read_log (left_pipe fields pid rounds b) u x),
          ap (λ p. p >>= go_up b parent l r) eq
              ∙ waited b parent l r e
                  (ap (λ c. has_ended l e.left || c) done ∙ or_true (has_ended l e.left))
              ∙ (λ i.
                  if is_down (if up i then e.stat2 else e.stat1)
                  then err bad_access
                  else up_with b parent l r (up i) e)
              ∙ ap (λ c. if c then err bad_access else up_with b parent l r false e) up
              ∙ ap
                  (λ p. p >>= λ (s, l1, w1). ok (
                    s,
                    passing false l1 e.right,
                    write_log (up_link fields pid rounds b parent) s
                        (read_log (left_pipe fields pid rounds b) s w1),
                  ))
                  e2,
          (live, done),
          fit,
          Keeps-trans w.fifo e.world.fifo x.fifo keeps after,
          (
            Handed-keep real (agent_of b) e.world.fifo x.fifo after handed,
            HandedAll-keep real l e.world.fifo x.fifo after hl,
            HandedAll-keep real r e.world.fifo x.fifo after hr,
          ),
        )
    send_winner real b parent l r w e eq (keeps, handed, inr (down, up, done, (u, live, fit))) hl
          hr =
        let (x, e2, q) = send-Live fields pid rounds r b e.right u e.world live in
        let after = Keeps-same e.world.fifo x.fifo q in
        (
          u,
          passing true e.left e.right,
          write_log (up_link fields pid rounds b parent) u
              (read_log (right_pipe fields pid rounds b) u x),
          ap (λ p. p >>= go_up b parent l r) eq
              ∙ waited b parent l r e (ap (λ c. c || has_ended r e.right) done)
              ∙ (λ i.
                  if is_down (if down i then e.stat2 else e.stat1)
                  then err bad_access
                  else up_with b parent l r (down i) e)
              ∙ ap (λ c. if c then err bad_access else up_with b parent l r true e) up
              ∙ ap
                  (λ p. p >>= λ (s, l1, w1). ok (
                    s,
                    passing true e.left l1,
                    write_log (up_link fields pid rounds b parent) s
                        (read_log (right_pipe fields pid rounds b) s w1),
                  ))
                  e2,
          (live, done),
          fit,
          Keeps-trans w.fifo e.world.fifo x.fifo keeps after,
          (
            Handed-keep real (agent_of b) e.world.fifo x.fifo after handed,
            HandedAll-keep real l e.world.fifo x.fifo after hl,
            HandedAll-keep real r e.world.fifo x.fifo after hr,
          ),
        )

    -- Of a shape whose players all begin_player as they should.
    pub initial-Offers :
        (real : Bool) (s : Shape) (parent : ℕ) (w : Outside)
        → IsKind real s
        → WellFed real s
        → BeginsAll fields pid real s w.fifo
        → Offers real s parent w
    unfolding peer send_player send_status write_log write_line
    initial-Offers real (leaf k) parent w kind fed h =
        let (q, x, e, same, i, fit, kept) =
          begin_lem fields pid real k (pid (parent ∷ [])) w kind h in
        (
          q.status,
          playing q,
          write_log q.link q.status x,
          ap (λ r. r >>= λ (p, w1). send_status p w1) e,
          (i, refl, kept),
          fit,
          Keeps-same w.fifo x.fifo same,
          tt,
        )
    initial-Offers real (node b l r) parent w kind fed h =
        let (e, eq, won, hl, hr) =
          play_first real b l r w kind.0 kind.1 fed (initial-Offers real l b w kind.0 fed.2 h.0)
            (λ v keeps.
              initial-Offers real r b v kind.1 fed.3
                (BeginsAll-keep fields pid real r w.fifo v.fifo keeps h.1)) in
        send_winner real b parent l r w e eq won hl hr
