-- ===== src/Booking/Line/Laws.antt =====
-- Which lines reach the server.
use sp.Base.{
  ℕ, ◌+◌, ◌<◌, ◌≡◌, refl, ◌≢◌, [], ◌∷◌, ◌++◌, some, none, arith, length, length-append, All, ok,
  err, exited, if◌then◌else◌, lt→ltb,
}
use sp.Base.Text.{Bytes, starts_with, until_nul, until_nul-whole}
use sp.Booking.Line.{
  bytes, line, closed, or_else, no_line, buf_size, cut_at, crlf, newline, iac_ip, handle_read,
}

-- A byte of a line: neither a line end nor NUL.
abbrev IsPlain : ℕ → Type 0
IsPlain c = (c ≢ 0) × (c ≢ 10) × (c ≢ 13)

until_nul-plain :
    (l ending : Bytes) → All IsPlain l → until_nul (l ++ ending) ≡ l ++ until_nul ending
unfolding until_nul
until_nul-plain [] ending h = refl
until_nul-plain (c ∷ l) ending h = ground (arith, until_nul-plain l ending h.1)

cut_at-crlf : (l rest : Bytes) → All IsPlain l → cut_at crlf (l ++ 13 ∷ 10 ∷ rest) ≡ some l
unfolding cut_at starts_with
cut_at-crlf [] rest h = refl
cut_at-crlf (c ∷ l) rest h = ground (arith, cut_at-crlf l rest h.1)

cut_at-newline : (l rest : Bytes) → All IsPlain l → cut_at newline (l ++ 10 ∷ rest) ≡ some l
unfolding cut_at starts_with
cut_at-newline [] rest h = refl
cut_at-newline (c ∷ l) rest h = ground (arith, cut_at-newline l rest h.1)

cut_at-no_crlf : (l : Bytes) → All IsPlain l → cut_at crlf (l ++ 10 ∷ []) ≡ none
unfolding cut_at starts_with
cut_at-no_crlf [] h = refl
cut_at-no_crlf (c ∷ l) h = ground (arith, cut_at-no_crlf l h.1)

until_nul-crlf : (rest : Bytes) → until_nul (13 ∷ 10 ∷ rest) ≡ 13 ∷ 10 ∷ until_nul rest
unfolding until_nul
until_nul-crlf rest = refl

until_nul-lf : until_nul (10 ∷ []) ≡ 10 ∷ []
unfolding until_nul
until_nul-lf = refl

handle_read-bytes :
    (s : Bytes)
    → 0 < length s
    → length s < buf_size
    → handle_read (bytes s)
      ≡ or_else
          (cut_at crlf (until_nul s))
          (or_else (cut_at newline (until_nul s)) (no_line (until_nul s)))
unfolding handle_read
handle_read-bytes [] full short = absurd (omega arith)
handle_read-bytes (c ∷ s) full short = rw (lt→ltb _ _ short)

-- A line of plain bytes that ends in CR LF, whatever stands behind it, or in LF alone, arrives as
-- it was sent, if it is shorter than the buffer.
pub handle_read-line :
    (l rest : Bytes)
    → All IsPlain l
    → length l + length rest + 2 < buf_size
    → (handle_read (bytes (l ++ 13 ∷ 10 ∷ rest)) ≡ ok (line l))
      × (handle_read (bytes (l ++ 10 ∷ [])) ≡ ok (line l))
handle_read-line l rest h short =
    let at_crlf : Bytes = l ++ 13 ∷ 10 ∷ rest in
    let at_lf : Bytes = l ++ 10 ∷ [] in
    let long = length-append l (13 ∷ 10 ∷ rest) in
    let long' = length-append l (10 ∷ []) in
    (
      rw (
        handle_read-bytes at_crlf (omega (arith, long)) (omega (arith, long)),
        until_nul-plain l (13 ∷ 10 ∷ rest) h,
        until_nul-crlf rest,
        cut_at-crlf l (until_nul rest) h,
      ),
      rw (
        handle_read-bytes at_lf (omega (arith, long')) (omega (arith, long')),
        until_nul-plain l (10 ∷ []) h,
        until_nul-lf,
        cut_at-no_crlf l h,
        cut_at-newline l [] h,
      ),
    )

cut_at-no_newline : (s : Bytes) → All (λ c. c ≢ 10) s → cut_at newline s ≡ none
unfolding cut_at starts_with
cut_at-no_newline [] h = refl
cut_at-no_newline (c ∷ s) h = ground (arith, cut_at-no_newline s h.1)

cut_at-no_crlf' : (s : Bytes) → All (λ c. c ≢ 10) s → cut_at crlf s ≡ none
unfolding cut_at starts_with
cut_at-no_crlf' [] h = refl
cut_at-no_crlf' (c ∷ []) h = ground arith
cut_at-no_crlf' (c ∷ e ∷ s) h = ground (arith, cut_at-no_crlf' (e ∷ s) h.1)

-- Bytes with no line end and no NUL end the whole server, unless they begin with Telnet's
-- interrupt, which closes the client's connection only.
pub handle_read-no_line :
    (s : Bytes)
    → 0 < length s
    → length s < buf_size
    → All (λ c. c ≢ 10) s
    → All (λ c. c ≢ 0) s
    → handle_read (bytes s) ≡ (if starts_with iac_ip s then ok closed else err exited)
handle_read-no_line s full short lines nuls = rw (
  handle_read-bytes s full short,
  until_nul-whole s nuls,
  cut_at-no_crlf' s lines,
  cut_at-no_newline s lines,
)
