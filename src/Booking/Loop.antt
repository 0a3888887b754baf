-- ===== src/Booking/Loop.antt =====
-- `main`: what the server does with a new connection and with input of a client.
pub mod Keeps
use sp.Base.{
  ℕ, Bool, true, false, List, [], ◌∷◌, Option, some, none, ◌==◌, if◌then◌else◌, length, Result, ok,
  ◌>>=◌, ◌≡◌, ◌≢◌,
}
use Prim.Native.Nat.{Ordering}
use sp.Base.Text.{Bytes, codes, strcmp}
use sp.Booking.Line.{Input, Read, bad, closed, line, handle_read}
use sp.Booking.Server.{
  Mode, read_server, write_server, Request, Server, World, State, put, init_request, write_to,
  disconnect, initialize,
}
use sp.Booking.Command.{command}

abbrev pub prompt_text : Bytes
prompt_text = codes "Please enter your id (to check your booking state):\n"

abbrev pub leave_text : Bytes
leave_text = codes "\n(Type Exit to leave...)\n"

abbrev pub modify_text : Bytes
modify_text =
    codes
      "\nPlease input your booking command. (Food, Concert, Electronics. Positive/negative value increases/decreases the booking amount.):\n"

-- `strcmp(s, "Exit") == 0`
abbrev pub is_exit : Bytes → Bool
is_exit s = elim (strcmp s (codes "Exit")) [ Ordering.eq ↦ true | _ ↦ false ]

-- `accept` gave descriptor `fd`.
unfoldable pub open_client : ℕ → State → State
open_client fd s =
    let server = s.server in
    let request = server.requests fd in
    let known = record s {
      server = record server {
        requests = put fd (record request { conn_fd = some fd }) server.requests;
        master_set = put fd true server.master_set;
      };
    } in
    if request.id == 0 then write_to fd prompt_text known else known

-- The buffer as `handle_read` leaves it.
abbrev pub set_buf : ℕ → Bytes → State → State
set_buf i text s =
    let server = s.server in
    record s {
      server = record server {
        requests =
            put i (record (server.requests i) { buf = text; buf_len = length text })
              server.requests;
      };
    }

-- The text that follows a successful `initialize`.
abbrev pub welcome : ℕ → Bytes → State × Bool → State
welcome i text (s, served) = if served then write_to i text s else s

-- A line of client `i`, by its server.
unfoldable pub on_line : Mode → ℕ → State → Result State
unfolding initialize command disconnect
on_line read_server i s =
    if (s.server.requests i).id == 0
    then (initialize read_server i s >>= λ r. ok (welcome i leave_text r))
    else ok (if is_exit (s.server.requests i).buf then disconnect read_server i true s else s)
on_line write_server i s =
    if (s.server.requests i).id == 0
    then (initialize write_server i s >>= λ r. ok (welcome i modify_text r))
    else command i s

-- The end of the stream: a client with no id holds no lock.
abbrev pub on_read : Mode → ℕ → Read → State → Result State
on_read mode i bad s = ok s
on_read mode i closed s =
    ok (
      if (s.server.requests i).id == 0 then disconnect mode i false s else disconnect mode i true s)
on_read mode i (line text) s = on_line mode i (set_buf i text s)

unfoldable pub on_input : Mode → ℕ → Input → State → Result State
unfolding handle_read on_line disconnect
on_input mode i input s = do got ← handle_read input; on_read mode i got s
