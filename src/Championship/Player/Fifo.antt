-- ===== src/Championship/Player/Fifo.antt =====
-- What a player that loses hands over to its agent.
use sp.Base.{
  ℕ, ◌≡◌, refl, ap, ◌∙◌, true, if◌then◌else◌, if_lem, ◌==◌, ==_iff, arith, ok, ◌>>=◌, Option, some,
}
use sp.Base.Int.{ℤ, pos, pos_part, neg_part}
use sp.Base.Text.{codes}
use sp.Championship.Status.{Status, Outside, write_line}
use sp.Championship.Graph.{graph}
use sp.Championship.Battle.Blow.{IsFit}
use sp.Championship.Battle.Laws.{IsSame}
use sp.Championship.Player.{Player, gone, put_fifo, hand_over, lose, fifo_line}
use sp.Championship.Player.Laws.{IsKept, with_status}

-- The FIFO of agent `k` holds a status that is fit.
abbrev pub HasFit : (ℕ → Option Status) → ℕ → Type 0
HasFit fifo k = (s : Status) × (fifo k ≡ some s) × IsFit s

-- The FIFOs that do so still do.
abbrev pub Keeps : (before after : ℕ → Option Status) → Type 0
Keeps before after = (k : ℕ) → HasFit before k → HasFit after k

pub Keeps-same : (f g : ℕ → Option Status) → g ≡ f → Keeps f g
Keeps-same f g e k (s, h, fit) = (s, ap (λ h. h k) e ∙ h, fit)

abbrev restored : ℤ → Status → Status
restored origin s = record s { hp = origin; battle_ended_flag = pos 0 }

restored-IsFit :
    (origin : ℤ) (s st : Status)
    → IsFit st
    → IsSame st s
    → IsKept origin st
    → IsFit (restored origin s)
restored-IsFit origin s st f same kept = record {
  player = omega (arith, same.0, f.player);
  hp_sign = kept.0;
  alive = omega (arith, f.alive, kept);
  hp_int = kept.2;
  atk_sign = ap neg_part same.1 ∙ f.atk_sign;
  harms = omega (arith, ap pos_part same.1, f.harms);
  atk_int = omega (arith, ap pos_part same.1, f.atk_int);
  on = refl;
}

put_fifo-HasFit : (k : ℕ) (s : Status) (w : Outside) → IsFit s → HasFit (put_fifo k s w).fifo k
put_fifo-HasFit k s w f = (s, ap (λ b. if b then some s else w.fifo k) ((==_iff k k).1 refl), f)

put_fifo-Keeps : (k : ℕ) (s : Status) (w : Outside) → IsFit s → Keeps w.fifo (put_fifo k s w).fifo
put_fifo-Keeps k s w f j h =
    if_lem (λ o. (t : Status) × (o ≡ some t) × IsFit t) (j == k) (s, refl, f) h

-- A real player that loses with an agent to follow ends, and the agent's FIFO holds a status that is
-- fit: the player's, with the HP that it began with.
pub lose-real :
    (q : Player) (s st : Status) (w : Outside) (k : ℕ)
    → IsFit st
    → IsSame st s
    → IsKept q.origin_hp st
    → (graph s.current_battle_id).loser ≡ pos k
    → (x : Outside) × (lose true (with_status q s) w ≡ ok (gone, x))
      × HasFit x.fifo k
      × Keeps w.fifo x.fifo
unfolding lose write_line hand_over
lose-real q s st w k f same kept e =
    let t = restored q.origin_hp s in
    let fit = restored-IsFit q.origin_hp s st f same kept in
    (
      write_line q.link.file (fifo_line (codes "to") q.id q.link.pid (pos k) t) (put_fifo k t w),
      ap
          (λ agent. hand_over agent t w >>= λ handed.
            ok (
              gone,
              write_line q.link.file (fifo_line (codes "to") q.id q.link.pid agent t) handed,
            ))
          e,
      put_fifo-HasFit k t w fit,
      put_fifo-Keeps k t w fit,
    )
