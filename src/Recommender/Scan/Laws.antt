-- ===== src/Recommender/Scan/Laws.antt =====
-- What scanf reads of numbers and words that white space ends.
use sp.Base.{
  ℕ, zero, suc, ◌^◌, ◌<◌, ◌≤◌, ◌≡◌, ◌≢◌, refl, ap, ◌∙◌, true, false, [], ◌∷◌, ◌++◌, some, lt→ltb,
  length, All, arith, ok,
}
use sp.Base.Text.{Bytes, is_space}
use sp.Base.Decimal.{decimal, value_of, value_of-decimal, IsDigit, decimal-IsDigit, decimal_some}
use sp.Recommender.Scan.{
  skip_space, scan_digits, scan_sign, scan_number, scan_int, scan_unsigned, scan_chars, scan_word,
}

-- White space is next, or nothing.
abbrev pub IsEnd : Bytes → Type 0
IsEnd [] = Unit
IsEnd (c ∷ s) = is_space c ≡ true

-- What `%s` reads whole with the width `left`.
abbrev pub IsWord : ℕ → Bytes → Type 0
IsWord left w = (w ≢ []) × All (λ c. is_space c ≡ false) w × (length w ≤ left)

scan_chars-append :
    (left : ℕ) (w s : Bytes)
    → All (λ c. is_space c ≡ false) w
    → length w ≤ left
    → IsEnd s
    → scan_chars left (w ++ s) ≡ (w, s)
unfolding scan_chars
scan_chars-append zero [] s h k e = refl
scan_chars-append zero (c ∷ w) s h k e = absurd (omega (arith, k))
scan_chars-append (suc left) [] [] h k e = refl
scan_chars-append (suc left) [] (c ∷ s) h k e = rw e refl
scan_chars-append (suc left) (c ∷ w) s h k e =
    rw (scan_chars-append left w s h.1 (omega (arith, k)) e, h.0) refl

skip_space-one :
    (b c : ℕ) (s : Bytes) → is_space b ≡ true → is_space c ≡ false → skip_space (b ∷ c ∷ s) ≡ c ∷ s
unfolding skip_space
skip_space-one b c s h k = rw (h, k) refl

scan_word_step :
    (left : ℕ) (input t w s : Bytes)
    → skip_space input ≡ t
    → scan_chars left t ≡ (w, s)
    → w ≢ []
    → scan_word left input ≡ some (w, s)
unfolding scan_word
scan_word_step left input t [] s h k found = absurd (found refl)
scan_word_step left input t (c ∷ w) s h k found = rw (h, k) refl

-- A word behind one white space is read whole, and what ends it is left.
pub scan_word-append :
    (left b : ℕ) (w s : Bytes)
    → is_space b ≡ true
    → IsWord left w
    → IsEnd s
    → scan_word left (b ∷ (w ++ s)) ≡ some (w, s)
scan_word-append left b [] s hb h e = absurd (h.0 refl)
scan_word-append left b (c ∷ w) s hb h e =
    scan_word_step left (b ∷ (c ∷ w ++ s)) (c ∷ w ++ s) (c ∷ w) s
      (skip_space-one b c (w ++ s) hb h.1.0) (scan_chars-append left (c ∷ w) s h.1 h.2 e) h.0

scan_digits-append : (ds s : Bytes) → All IsDigit ds → IsEnd s → scan_digits (ds ++ s) ≡ (ds, s)
unfolding scan_digits
scan_digits-append [] [] h e = refl
scan_digits-append [] (c ∷ s) h e = ground arith
scan_digits-append (d ∷ ds) s h e = ground (arith, scan_digits-append ds s h.1 e)

scan_number_step :
    (input t u ds s : Bytes)
    → skip_space input ≡ t
    → scan_sign t ≡ (false, u)
    → scan_digits u ≡ (ds, s)
    → ds ≢ []
    → scan_number input ≡ some ((false, value_of 0 ds), s)
unfolding scan_number
scan_number_step input t u [] s h k e found = absurd (found refl)
scan_number_step input t u (d ∷ ds) s h k e found = rw (h, k, e) refl

skip_space_none : (d : ℕ) (s : Bytes) → IsDigit d → skip_space (d ∷ s) ≡ d ∷ s
unfolding skip_space
skip_space_none d s h = ground arith

scan_sign_none : (d : ℕ) (s : Bytes) → IsDigit d → scan_sign (d ∷ s) ≡ (false, d ∷ s)
unfolding scan_sign
scan_sign_none d s h = ground arith

digit_no_space : (d : ℕ) → IsDigit d → is_space d ≡ false
digit_no_space d h = ground arith

scan_sign-digits :
    (ds s : Bytes) → ds ≢ [] → All IsDigit ds → scan_sign (ds ++ s) ≡ (false, ds ++ s)
scan_sign-digits [] s h k = absurd (h refl)
scan_sign-digits (d ∷ ds) s h k = scan_sign_none d (ds ++ s) k.0

skip_space-digits : (ds s : Bytes) → ds ≢ [] → All IsDigit ds → skip_space (ds ++ s) ≡ ds ++ s
skip_space-digits [] s h k = absurd (h refl)
skip_space-digits (d ∷ ds) s h k = skip_space_none d (ds ++ s) k.0

skip_space-space : (b : ℕ) (s : Bytes) → is_space b ≡ true → skip_space (b ∷ s) ≡ skip_space s
unfolding skip_space
skip_space-space b s h = rw h refl

scan_number-decimal :
    (n : ℕ) (input s : Bytes)
    → skip_space input ≡ decimal n ++ s
    → IsEnd s
    → scan_number input ≡ some ((false, n), s)
scan_number-decimal n input s h e =
    let ds = decimal-IsDigit n in
    scan_number_step input (decimal n ++ s) (decimal n ++ s) (decimal n) s h
      (scan_sign-digits (decimal n) s (decimal_some n) ds) (scan_digits-append (decimal n) s ds e)
      (decimal_some n)
    ∙ ap (λ v. some ((false, v), s)) (value_of-decimal n)

-- `%d` at the number's first digit.
pub scan_int-decimal :
    (n : ℕ) (s : Bytes) → n < 2 ^ 31 → IsEnd s → scan_int (decimal n ++ s) ≡ ok (some (n, s))
unfolding scan_int
scan_int-decimal n s h e =
    let read =
      scan_number-decimal n (decimal n ++ s) s
        (skip_space-digits (decimal n) s (decimal_some n) (decimal-IsDigit n)) e in
    rw (read, lt→ltb n (2 ^ 31) h) refl

-- `%u` of a number behind one white space.
pub scan_unsigned-decimal :
    (b n : ℕ) (s : Bytes)
    → is_space b ≡ true
    → n < 2 ^ 32
    → IsEnd s
    → scan_unsigned (b ∷ (decimal n ++ s)) ≡ ok (some (n, s))
unfolding scan_unsigned
scan_unsigned-decimal b n s hb h e =
    let read =
      scan_number-decimal n (b ∷ (decimal n ++ s)) s
        (skip_space-space b (decimal n ++ s) hb
          ∙ skip_space-digits (decimal n) s (decimal_some n) (decimal-IsDigit n))
        e in
    rw (read, lt→ltb n (2 ^ 32) h) refl
