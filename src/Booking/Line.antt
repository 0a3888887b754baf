-- ===== src/Booking/Line.antt =====
-- `handle_read`: one `read` of a client's socket, and the line that it is cut to.
pub mod Laws
use sp.Base.{
  ℕ, List, [], ◌∷◌, Option, some, none, ltb, ◌==◌, if◌then◌else◌, length, Result, ok, err, guard,
  bad_access, exited, ◌>>◌,
}
use mathlib.Core.Option
use sp.Base.Text.{Bytes, starts_with, until_nul}

-- What `read` reports: a failure, the end of the stream, or bytes.
pub data Input : Type 0 where
  failed eof : Input
  bytes : Bytes → Input

-- The values -1, 0 and 1 of `handle_read`; a line is what `reqP->buf` holds then.
pub data Read : Type 0 where
  bad closed : Read
  line : Bytes → Read

abbrev pub buf_size : ℕ
buf_size = 512

-- The bytes before the place that `strstr` finds.
unfoldable pub cut_at : (needle s : Bytes) → Option Bytes
cut_at needle [] = if starts_with needle [] then some [] else none
cut_at needle (c ∷ s) =
    let rest = Option.map (◌∷◌ c) (cut_at needle s) in
    if starts_with needle (c ∷ s) then some [] else rest

abbrev pub crlf : Bytes
crlf = 13 ∷ 10 ∷ []

abbrev pub newline : Bytes
newline = 10 ∷ []

-- Telnet's interrupt, `IAC_IP`
abbrev pub iac_ip : Bytes
iac_ip = 0xff ∷ 0xf4 ∷ []

-- Bytes with no line end are Ctrl+C, or the end of the server.
abbrev pub no_line : Bytes → Result Read
no_line s = if starts_with iac_ip s then ok closed else err exited

abbrev pub or_else : Option Bytes → Result Read → Result Read
or_else (some l) r = ok (line l)
or_else none r = r

-- A read that fills the whole buffer leaves no NUL at which `strstr` would stop.
unfoldable pub handle_read : Input → Result Read
unfolding until_nul cut_at
handle_read failed = ok bad
handle_read eof = ok closed
handle_read (bytes []) = ok closed
handle_read (bytes (c ∷ s)) =
    let buf = until_nul (c ∷ s) in
    guard (ltb (length (c ∷ s)) buf_size) bad_access
    >> or_else (cut_at crlf buf) (or_else (cut_at newline buf) (no_line buf))
