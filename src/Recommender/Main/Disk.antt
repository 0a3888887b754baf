-- ===== src/Recommender/Main/Disk.antt =====
-- Requests with different ids are answered in different files, which then hold what was printed.
use mathlib.Core.HLevel.{¬_prop}
use mathlib.Core.List.Perm
use mathlib.Core.List.{Perm, Mem, Pairwise, mem-cons_self, mem-cons_of_mem}
use sp.Base.{
  ℕ, ◌-◌, ◌^◌, ◌<◌, ◌≡◌, ◌≢◌, refl, sym, ap, ◌∙◌, inl, inr, true, false, List, [], ◌∷◌, ◌++◌, ltb,
  ◌==◌, not_eq, if◌then◌else◌, All, arith, Bool-cases,
}
use sp.Base.Text.{Bytes, codes, eq_of_strcmp}
use sp.Base.Decimal.{decimal, value_of, value_of-decimal, IsDigit, decimal-IsDigit}
use sp.Recommender.Serve.{File, is_same, id_text}
use sp.Recommender.Load.{cut}
use sp.Recommender.Load.Tokens.{IsFree, cut-append}
use sp.Recommender.Main.{is_open, write_file, disk}

-- The id that a text of `%d` stands for.
abbrev to_id : Bytes → ℕ
to_id [] = 0
to_id (c ∷ s) = if c == b'-' then 2 ^ 32 - value_of 0 s else value_of 0 (c ∷ s)

to_id-digits : (s : Bytes) → All IsDigit s → to_id s ≡ value_of 0 s
unfolding value_of
to_id-digits [] h = refl
to_id-digits (c ∷ s) h = rw (not_eq c b'-' (omega (arith, h.0)))

to_id-id_text : (id : ℕ) → id < 2 ^ 32 → to_id (id_text id) ≡ id
to_id-id_text id h = elim (Bool-cases (ltb id (2 ^ 31))) [
  | inl low ↦ rw low (to_id-digits (decimal id) (decimal-IsDigit id) ∙ value_of-decimal id)
  | inr high ↦ rw high (omega (arith, value_of-decimal (2 ^ 32 - id), h))
]

digits-IsFree : (s : Bytes) → All IsDigit s → IsFree b't' s
digits-IsFree [] h = tt
digits-IsFree (c ∷ s) h = (omega (arith, h.0), digits-IsFree s h.1)

id_text-IsFree : (id : ℕ) → IsFree b't' (id_text id)
id_text-IsFree id = elim (Bool-cases (ltb id (2 ^ 31))) [
  | inl low ↦ rw low (digits-IsFree (decimal id) (decimal-IsDigit id))
  | inr high ↦
      rw high (omega arith, digits-IsFree (decimal (2 ^ 32 - id)) (decimal-IsDigit (2 ^ 32 - id)))
]

-- The name of a file gives the id of its request away.
pub file_name-injective :
    (a b : ℕ)
    → a < 2 ^ 32
    → b < 2 ^ 32
    → id_text a ++ codes "t.out" ≡ id_text b ++ codes "t.out"
    → a ≡ b
file_name-injective a b h k e =
    let front : id_text a ≡ id_text b =
      sym (ap (λ p. p.0) (cut-append b't' (id_text a) (codes ".out") (id_text-IsFree a)))
      ∙ ap (λ s. (cut b't' s).0) e
      ∙ ap (λ p. p.0) (cut-append b't' (id_text b) (codes ".out") (id_text-IsFree b)) in
    sym (to_id-id_text a h) ∙ ap to_id front ∙ to_id-id_text b k

eq_of_is_same : (s t : Bytes) → is_same s t ≡ true → s ≡ t
eq_of_is_same s t h = ground (arith, eq_of_strcmp s t)

-- Files with different names.
abbrev pub Apart : List File → Type 0
Apart = Pairwise (λ f g. f.name ≢ g.name)

pub Apart-perm : {files out : List File} → Perm files out → Apart files → Apart out
Apart-perm p h = (Perm.Pairwise-iff (λ a b. ¬_prop) (λ f g n e. n (sym e)) p).0 h

not_open :
    (name : Bytes) (files : List File)
    → ((g : File) → Mem g files → name ≢ g.name)
    → is_open name files ≡ false
not_open name [] h = refl
not_open name (g ∷ files) h = elim (Bool-cases (is_same g.name name)) [
  | inl same ↦ absurd (h g mem-cons_self (sym (eq_of_is_same g.name name same)))
  | inr other ↦ rw other (not_open name files (λ f m. h f (mem-cons_of_mem g m)))
]

write_file_new :
    (shared : (name earlier later : Bytes) → Bytes) (f : File) (files : List File)
    → is_open f.name files ≡ false
    → write_file shared f files ≡ f ∷ files
unfolding write_file
write_file_new shared f files h = rw h

pub disk-Apart :
    (shared : (name earlier later : Bytes) → Bytes) (files : List File)
    → Apart files
    → disk shared files ≡ files
unfolding disk
disk-Apart shared [] h = refl
disk-Apart shared (f ∷ files) (Pairwise.cons first rest) =
    ap (write_file shared f) (disk-Apart shared files rest)
    ∙ write_file_new shared f files (not_open f.name files first)
