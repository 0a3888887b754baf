-- ===== src/Championship/Graph/Laws.antt =====
-- The table of battles describes one tree, and sends each loser to a battle that waits for it.
use sp.Base.{
  eq_cases, ℕ, zero, suc, ◌+◌, ◌≤◌, ◌<◌, ◌≡◌, subst, ◌⊎◌, inl, inr, Bool, true, false, [], ◌∷◌,
  arith, get_or,
}
use sp.Base.Int.{ℤ, pos, negsuc}
use sp.Base.Text.{Bytes}
use sp.Base.Decimal.{value_of}
use sp.Championship.Graph.{Node, graph}

-- A statement of each battle from `A` to `N` follows from its instances.
abbrev AllFrom : (n b : ℕ) → (ℕ → Type 0) → Type 0
AllFrom zero b P = Unit
AllFrom (suc n) b P = P b × AllFrom n (suc b) P

all_from : (n b : ℕ) (P : ℕ → Type 0) → AllFrom n b P → (i : ℕ) → b ≤ i → i < b + n → P i
all_from zero b P h i l u = absurd (omega (arith, l, u))
all_from (suc n) b P h i l u = elim (eq_cases b i) [
  | inl e ↦ subst P e h.0
  | inr ne ↦ all_from n (suc b) P h.1 i (omega (arith, l, ne)) (omega (arith, u))
]

-- A child of battle `b` that is a battle has `b` as its parent.
abbrev pub HasParent : ℕ → Bool → Bytes → Type 0
HasParent b true name = Unit
HasParent b false name = (graph (get_or name 0 0)).parent ≡ b ∷ []

-- Agent `k` is a player of battle `b`.
abbrev pub IsSide : ℕ → Node → Type 0
IsSide k n =
    ((n.left_player ≡ true) × (value_of 0 n.left ≡ k))
    ⊎ ((n.right_player ≡ true) × (value_of 0 n.right ≡ k))

-- The children of a battle that are battles name it as their parent.
pub graph-parent :
    (b : ℕ)
    → b'A' ≤ b
    → b ≤ b'N'
    → HasParent b (graph b).left_player (graph b).left
      × HasParent b (graph b).right_player (graph b).right
unfolding graph
graph-parent b l u =
    all_from 14 b'A'
      (λ b.
        HasParent b (graph b).left_player (graph b).left
        × HasParent b (graph b).right_player (graph b).right)
      (ground arith) b l (omega (arith, u))

abbrev SendsTo : ℤ → ℕ → Type 0
SendsTo (pos k) b = (8 ≤ k) × (k ≤ 14) × IsSide k (graph b)
SendsTo (negsuc n) b = Unit

-- If a battle has an agent for its loser, that is one of 8 to 14, and a player of the battle to which
-- the table sends it.
pub graph-loser :
    (b k : ℕ)
    → b'A' ≤ b
    → b ≤ b'N'
    → (graph b).loser ≡ pos k
    → (8 ≤ k) × (k ≤ 14) × IsSide k (graph (graph b).loser_parent)
unfolding graph value_of
graph-loser b k l u h =
    subst (λ a. SendsTo a (graph b).loser_parent) h
      (all_from 14 b'A' (λ b. SendsTo (graph b).loser (graph b).loser_parent) (ground arith) b l
        (omega (arith, u)))
