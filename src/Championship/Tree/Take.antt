-- ===== src/Championship/Tree/Take.antt =====
-- How a process that stands for a player that is alive takes what its battle returns.
use sp.Base.{
  ℕ, ◌≡◌, ◌≢◌, refl, ap, sym, ◌∙◌, Bool, true, false, not, ◌&&◌, ◌==◌, not_eq, arith, ok, Option,
}
use sp.Base.Int.{ℤ, pos, pos_part, eqb_ℤ}
use sp.Base.Text.{Bytes}
use sp.Championship.Status.{Status, Outside, read_log, write_line}
use sp.Championship.Graph.{graph, Shape}
use sp.Championship.Battle.{is_down}
use sp.Championship.Battle.Blow.{IsFit}
use sp.Championship.Battle.Laws.{IsSame, Stands}
use sp.Championship.Player.{Fields, Player, gone, receive_status, lose}
use sp.Championship.Player.Laws.{
  IsKept, with_status, healed, healed-IsFit, healed-IsKept, test_flag_off, test_flag_final,
  test_flag_won, test_flag_lost,
}
use sp.Championship.Player.Fifo.{HasFit, Keeps, Keeps-same, lose-real}
use sp.Championship.Tree.{ProcState, stays, has_ended}
use sp.Championship.Tree.Live.{Live, IsKind, the_peer, receive-Live, receive-last}

keeps_on : (c : Bool) → (not (c && not true) && not false) ≡ true
keeps_on true = refl
keeps_on false = refl

-- The passing mode goes on for a player that stands, but for the last battle's end.
stays-on : (t : Status) → t.battle_ended_flag ≡ pos 0 → is_down t ≡ false → stays t ≡ true
stays-on t f d =
    (λ i. not (t.current_battle_id == b'A' && not (eqb_ℤ (f i) (pos 0))) && not (d i))
    ∙ keeps_on (t.current_battle_id == b'A')

stays-won : (t : Status) → t.current_battle_id ≢ b'A' → is_down t ≡ false → stays t ≡ true
stays-won t m d = λ i.
    not (not_eq t.current_battle_id b'A' m i && not (eqb_ℤ t.battle_ended_flag (pos 0)))
    && not (d i)

-- It ends for a player that is down, and with the last battle.
down_off : (c : Bool) → (c && not true) ≡ false
down_off true = refl
down_off false = refl

stays-down : (t : Status) → is_down t ≡ true → stays t ≡ false
stays-down t d =
    let c = not (t.current_battle_id == b'A' && not (eqb_ℤ t.battle_ended_flag (pos 0))) in
    ap (λ b. c && not b) d ∙ down_off c

stays-final :
    (t : Status) → t.current_battle_id ≡ b'A' → t.battle_ended_flag ≡ pos 1 → stays t ≡ false
stays-final t here on =
    ap (λ k. not (k == b'A' && not (eqb_ℤ t.battle_ended_flag (pos 0))) && not (is_down t)) here
    ∙ ap (λ f. not (b'A' == b'A' && not (eqb_ℤ f (pos 0))) && not (is_down t)) on

pub Stands-up : (h : ℤ) (t : Status) → Stands h t → is_down t ≡ false
Stands-up h t s = let a = s.0 in let b = s.1 in ground arith

pub down_lem : (t : Status) → pos_part t.hp ≡ 0 → is_down t ≡ true
down_lem t h = ground arith

-- What a player that lost leaves for agent `k`, if it is one of the players 0 to 7.
abbrev pub Handed : Bool → (ℕ → Option Status) → ℕ → Type 0
Handed true fifo k = HasFit fifo k
Handed false fifo k = Unit

abbrev pub Follows : Bool → ℕ → ℕ → Type 0
Follows true b k = (graph b).loser ≡ pos k
Follows false b k = Unit

lose-Handed :
    (real : Bool) (b k : ℕ) (q : Player) (t st : Status) (w : Outside)
    → t.current_battle_id ≡ b
    → IsFit st
    → IsSame st t
    → IsKept q.origin_hp st
    → Follows real b k
    → (x : Outside) × (lose real (with_status q t) w ≡ ok (gone, x))
      × (Keeps w.fifo x.fifo × Handed real x.fifo k)
unfolding lose
lose-Handed false b k q t st w here fit same kept follows =
    (w, refl, (Keeps-same w.fifo w.fifo refl, tt))
lose-Handed true b k q t st w here fit same kept follows =
    let (x, e, handed, keeps) =
      lose-real q t st w k fit same kept (ap (λ c. (graph c).loser) here ∙ follows) in
    (x, e, (keeps, handed))

pub Keeps-trans : (f g h : ℕ → Option Status) → Keeps f g → Keeps g h → Keeps f h
Keeps-trans f g h a b k x = b k (a k x)

pub Handed-keep :
    (real : Bool) (k : ℕ) (f g : ℕ → Option Status) → Keeps f g → Handed real f k → Handed real g k
Handed-keep true k f g keeps h = keeps k h
Handed-keep false k f g keeps h = tt

module _ (fields : ℕ → Fields) (pid : Bytes → ℕ) (rounds : ℕ) where
  -- The ways in which a process takes the status that a battle returns.
  module _ (s : Shape) (parent : ℕ) (p : ProcState s) (st t : Status) (w : Outside)
      (live : Live s p st) where
    pub receive_on :
        t.battle_ended_flag ≡ pos 0
        → Stands st.hp t
        → (p1 : ProcState s) × (u : Status) × (x : Outside) × ((the_peer fields pid rounds s
                parent).receive
              t p w
            ≡ ok (p1, x))
          × (x.fifo ≡ w.fifo)
          × Live s p1 u
          × (u ≡ t)
    unfolding receive_status read_log write_line
    receive_on off stands =
        receive-Live fields pid rounds (λ u. u ≡ t) st t (stays-on t off (Stands-up st.hp t stands))
          (λ q w e kept. (
            t,
            read_log q.link t w,
            test_flag_off q t (read_log q.link t w) off,
            refl,
            refl,
            (kept.0, omega (arith, kept, stands), kept.2),
          ))
          s parent p w live

    pub receive_won :
        t.battle_ended_flag ≡ pos 1
        → t.current_battle_id ≢ b'A'
        → IsFit st
        → IsSame st t
        → Stands st.hp t
        → (p1 : ProcState s) × (u : Status) × (x : Outside) × ((the_peer fields pid rounds s
                parent).receive
              t p w
            ≡ ok (p1, x))
          × (x.fifo ≡ w.fifo)
          × Live s p1 u
          × IsFit u
    unfolding receive_status read_log write_line
    receive_won done more fit same stands =
        receive-Live fields pid rounds IsFit st t (stays-won t more (Stands-up st.hp t stands))
          (λ q w e kept. (
            healed q.origin_hp t,
            read_log q.link t w,
            test_flag_won q t st (read_log q.link t w) done more fit same stands kept,
            refl,
            healed-IsFit q.origin_hp t st fit same stands kept,
            healed-IsKept q.origin_hp t st fit same stands kept,
          ))
          s parent p w live

    pub receive_lost :
        (real : Bool) (b k : ℕ)
        → t.battle_ended_flag ≡ pos 1
        → t.current_battle_id ≡ b
        → b ≢ b'A'
        → IsFit st
        → IsSame st t
        → pos_part t.hp ≡ 0
        → Follows real b k
        → IsKind real s
        → (p1 : ProcState s) × (x : Outside) × ((the_peer fields pid rounds s parent).receive t p w
            ≡ ok (p1, x))
          × (has_ended s p1 ≡ true)
          × (Keeps w.fifo x.fifo × Handed real x.fifo k)
    unfolding receive_status read_log write_line
    receive_lost real b k done here more fit same down follows kind =
        receive-last fields pid rounds real (λ f x. Keeps f x.fifo × Handed real x.fifo k) st t
          (stays-down t (down_lem t down))
          (λ q w kind e kept.
            let w0 = read_log q.link t w in
            let (x, eq, left) = lose-Handed real b k q t st w0 here fit same kept follows in
            (
              x,
              test_flag_lost q t w0 done (λ a. more (sym here ∙ a)) down
                  ∙ ap (λ r. lose r (with_status q t) w0) kind
                  ∙ eq,
              left,
            ))
          s parent p w kind live

    pub receive_final :
        (real : Bool)
        → t.battle_ended_flag ≡ pos 1
        → t.current_battle_id ≡ b'A'
        → IsKind real s
        → (p1 : ProcState s) × (x : Outside) × ((the_peer fields pid rounds s parent).receive t p w
            ≡ ok (p1, x))
          × (has_ended s p1 ≡ true)
          × (x.fifo ≡ w.fifo)
    unfolding receive_status read_log write_line
    receive_final real done here kind =
        receive-last fields pid rounds real (λ f x. x.fifo ≡ f) st t (stays-final t here done)
          (λ q w kind e kept.
            (read_log q.link t w, test_flag_final q t (read_log q.link t w) done here, refl))
          s parent p w kind live
