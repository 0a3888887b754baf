-- ===== src/Championship/Tree/Live.antt =====
-- A process that stands for a player that is alive: what it sends, and how it takes what it reads.
use sp.Base.{
  ℕ, ◌≡◌, refl, ap, ◌∙◌, Bool, true, false, if◌then◌else◌, [], ◌∷◌, Result, ok, guard, blocked,
  ◌&&◌, ◌>>=◌, ◌>>◌, Option,
}
use sp.Base.Text.{Bytes}
use sp.Championship.Status.{Status, Outside, Link, read_log, write_log, write_line}
use sp.Championship.Graph.{graph, Shape, leaf, node}
use sp.Championship.Player.{
  Fields, Player, starting, gone, playing, is_real, receive_status, send_status,
}
use sp.Championship.Player.Laws.{IsKept, with_status}
use sp.Championship.Tree.{
  Peer, BattleState, fresh, passing, over, ProcState, stays, has_ended, pass_on, wait_other, peer,
  send_battle, receive_battle, pass_up, send_player, link_to, left_link, right_link,
}

pub both_ended : (c d : Bool) → c ≡ true → d ≡ true → (c && d) ≡ true
both_ended c d i j = rw (i, j) refl

-- The process holds the status of a player that is alive, which it sends next; in a battle, the child
-- that did not win has ended.
abbrev pub Live : (s : Shape) → ProcState s → Status → Type 0
Live (leaf k) starting st = ⊥
Live (leaf k) gone st = ⊥
Live (leaf k) (playing q) st = (q.id ≡ k) × (q.status ≡ st) × IsKept q.origin_hp st
Live (node b l r) (fresh x y) st = ⊥
Live (node b l r) (passing true x y) st = Live r y st × (has_ended l x ≡ true)
Live (node b l r) (passing false x y) st = Live l x st × (has_ended r y ≡ true)
Live (node b l r) (over x y) st = ⊥

pass_on-stays :
    {L R : Type 0} (t : Status) (right_won c d : Bool) (x : L) (y : R)
    → stays t ≡ true
    → pass_on t right_won c d x y ≡ ok (passing right_won x y)
pass_on-stays t right_won c d x y h =
    ap (λ b. if b then ok (passing right_won x y) else (wait_other c d >> ok (over x y))) h

pass_on_end :
    {L R : Type 0} (t : Status) (right_won c d : Bool) (x : L) (y : R)
    → stays t ≡ false
    → c ≡ true
    → d ≡ true
    → pass_on t right_won c d x y ≡ ok (over x y)
pass_on_end t right_won c d x y h i j =
    ap (λ b. if b then ok (passing right_won x y) else (wait_other c d >> ok (over x y))) h
    ∙ ap (λ b. guard b blocked >> ok (over x y)) (both_ended c d i j)

-- The state behind the write to the child, beside the FIFOs and files.
abbrev pair_with :
    (b : ℕ) (l r : Shape)
    → Result (BattleState (ProcState l) (ProcState r))
    → Outside
    → Result (ProcState (node b l r) × Outside)
pair_with b l r next w = do p ← next; ok (p, w)

abbrev proceed :
    (b : ℕ) (l r : Shape)
    → Status
    → Bool
    → ProcState l
    → ProcState r
    → Outside
    → Result (ProcState (node b l r) × Outside)
proceed b l r t right_won x y w =
    pair_with b l r (pass_on t right_won (has_ended l x) (has_ended r y) x y) w

-- Every player of the shape is one of the players 0 to 7, or every one is an agent.
abbrev pub IsKind : Bool → Shape → Type 0
IsKind real (leaf k) = is_real k ≡ real
IsKind real (node b l r) = IsKind real l × IsKind real r

module _ (fields : ℕ → Fields) (pid : Bytes → ℕ) (rounds : ℕ) where
  abbrev pub the_peer : (s : Shape) → ℕ → Peer (ProcState s)
  the_peer = peer fields pid rounds

  -- The pipe of battle `b` to its parent.
  abbrev pub up_link : (b parent : ℕ) → Link
  up_link b parent = link_to fields pid rounds b (graph b).parent (pid (parent ∷ []))

  abbrev pub left_pipe : ℕ → Link
  left_pipe = left_link fields pid rounds

  abbrev pub right_pipe : ℕ → Link
  right_pipe = right_link fields pid rounds

  -- It sends that status, and stays as it is.
  pub send-Live :
      (s : Shape) (parent : ℕ) (p : ProcState s) (st : Status) (w : Outside)
      → Live s p st
      → (x : Outside) × ((the_peer s parent).send p w ≡ ok (st, p, x)) × (x.fifo ≡ w.fifo)
  unfolding peer send_battle pass_up send_player send_status read_log write_log write_line
  send-Live (leaf k) parent starting st w h = absurd h
  send-Live (leaf k) parent gone st w h = absurd h
  send-Live (leaf k) parent (playing q) st w (i, e, kept) = (
    write_log q.link q.status w,
    ap (λ t. ok (t, playing q, write_log q.link q.status w)) e,
    refl,
  )
  send-Live (node b l r) parent (fresh x y) st w h = absurd h
  send-Live (node b l r) parent (over x y) st w h = absurd h
  send-Live (node b l r) parent (passing true x y) st w h =
      let (w1, e, same) = send-Live r b y st w h.0 in
      (
        write_log (up_link b parent) st (read_log (right_pipe b) st w1),
        ap
            (λ q. q >>= λ (s, r1, w1).
              ok (
                s,
                passing true x r1,
                write_log (up_link b parent) s (read_log (right_pipe b) s w1),
              ))
            e,
        same,
      )
  send-Live (node b l r) parent (passing false x y) st w h =
      let (w1, e, same) = send-Live l b x st w h.0 in
      (
        write_log (up_link b parent) st (read_log (left_pipe b) st w1),
        ap
            (λ q. q >>= λ (s, l1, w1).
              ok (
                s,
                passing false l1 y,
                write_log (up_link b parent) s (read_log (left_pipe b) s w1),
              ))
            e,
        same,
      )

  -- A status that keeps the passing mode: what the player makes of it is what the process makes of it.
  pub receive-Live :
      (R : Status → Type 0) (st t : Status)
      → stays t ≡ true
      → ((q : Player) (w : Outside)
          → q.status ≡ st
          → IsKept q.origin_hp st
          → (u : Status) × (x : Outside) × (receive_status t (playing q) w
              ≡ ok (playing (with_status q u), x))
            × (x.fifo ≡ w.fifo)
            × R u
            × IsKept q.origin_hp u)
      → (s : Shape) (parent : ℕ) (p : ProcState s) (w : Outside) → Live s p st
      → (p1 : ProcState s) × (u : Status) × (x : Outside) × ((the_peer s parent).receive t p w
          ≡ ok (p1, x))
        × (x.fifo ≡ w.fifo)
        × Live s p1 u
        × R u
  unfolding peer receive_battle read_log write_log write_line
  receive-Live R st t on react (leaf k) parent starting w h = absurd h
  receive-Live R st t on react (leaf k) parent gone w h = absurd h
  receive-Live R st t on react (leaf k) parent (playing q) w (i, e, kept) =
      let (u, x, eq, same, r, keeps) = react q w e kept in
      (playing (with_status q u), u, x, eq, same, (i, refl, keeps), r)
  receive-Live R st t on react (node b l r) parent (fresh y z) w h = absurd h
  receive-Live R st t on react (node b l r) parent (over y z) w h = absurd h
  receive-Live R st t on react (node b l r) parent (passing true y z) w h =
      let w0 = write_log (right_pipe b) t (read_log (up_link b parent) t w) in
      let (z1, u, x, eq, same, live, good) = receive-Live R st t on react r b z w0 h.0 in
      (
        passing true y z1,
        u,
        x,
        ap (λ q. q >>= λ (r1, w1). proceed b l r t true y r1 w1) eq
            ∙ ap (λ q. pair_with b l r q x)
                (pass_on-stays t true (has_ended l y) (has_ended r z1) y z1 on),
        same,
        (live, h.1),
        good,
      )
  receive-Live R st t on react (node b l r) parent (passing false y z) w h =
      let w0 = write_log (left_pipe b) t (read_log (up_link b parent) t w) in
      let (y1, u, x, eq, same, live, good) = receive-Live R st t on react l b y w0 h.0 in
      (
        passing false y1 z,
        u,
        x,
        ap (λ q. q >>= λ (l1, w1). proceed b l r t false l1 z w1) eq
            ∙ ap (λ q. pair_with b l r q x)
                (pass_on-stays t false (has_ended l y1) (has_ended r z) y1 z on),
        same,
        (live, h.1),
        good,
      )

  -- A status that ends the passing mode, and with which the player exits: so does the process, behind
  -- all that are below it, and what the player leaves in the FIFOs is what the process leaves there.
  pub receive-last :
      (real : Bool) (Q : (ℕ → Option Status) → Outside → Type 0) (st t : Status)
      → stays t ≡ false
      → ((q : Player) (w : Outside)
          → is_real q.id ≡ real
          → q.status ≡ st
          → IsKept q.origin_hp st
          → (x : Outside) × (receive_status t (playing q) w ≡ ok (gone, x)) × Q w.fifo x)
      → (s : Shape) (parent : ℕ) (p : ProcState s) (w : Outside) → IsKind real s
      → Live s p st
      → (p1 : ProcState s) × (x : Outside) × ((the_peer s parent).receive t p w ≡ ok (p1, x))
        × (has_ended s p1 ≡ true)
        × Q w.fifo x
  unfolding peer receive_battle read_log write_log write_line
  receive-last real Q st t off react (leaf k) parent starting w kind h = absurd h
  receive-last real Q st t off react (leaf k) parent gone w kind h = absurd h
  receive-last real Q st t off react (leaf k) parent (playing q) w kind (i, e, kept) =
      let (x, eq, left) = react q w (ap is_real i ∙ kind) e kept in (gone, x, eq, refl, left)
  receive-last real Q st t off react (node b l r) parent (fresh y z) w kind h = absurd h
  receive-last real Q st t off react (node b l r) parent (over y z) w kind h = absurd h
  receive-last real Q st t off react (node b l r) parent (passing true y z) w kind h =
      let w0 = write_log (right_pipe b) t (read_log (up_link b parent) t w) in
      let (z1, x, eq, done, q) = receive-last real Q st t off react r b z w0 kind.1 h.0 in
      (
        over y z1,
        x,
        ap (λ q. q >>= λ (r1, w1). proceed b l r t true y r1 w1) eq
            ∙ ap (λ q. pair_with b l r q x)
                (pass_on_end t true (has_ended l y) (has_ended r z1) y z1 off h.1 done),
        both_ended (has_ended l y) (has_ended r z1) h.1 done,
        q,
      )
  receive-last real Q st t off react (node b l r) parent (passing false y z) w kind h =
      let w0 = write_log (left_pipe b) t (read_log (up_link b parent) t w) in
      let (y1, x, eq, done, q) = receive-last real Q st t off react l b y w0 kind.0 h.0 in
      (
        over y1 z,
        x,
        ap (λ q. q >>= λ (l1, w1). proceed b l r t false l1 z w1) eq
            ∙ ap (λ q. pair_with b l r q x)
                (pass_on_end t false (has_ended l y1) (has_ended r z) y1 z off done h.1),
        both_ended (has_ended l y1) (has_ended r z) done h.1,
        q,
      )
