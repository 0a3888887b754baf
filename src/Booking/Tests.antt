-- ===== src/Booking/Tests.antt =====
-- A run of the write server.
use sp.Base.{
  true, false, List, [], ◌∷◌, ◌++◌, none, Result, ok, err, exited, arith, if◌then◌else◌, ◌≡◌, refl,
  ◌>>=◌,
}
use sp.Base.Int.{ℤ, pos, ◌+ℤ◌}
use sp.Base.Text.{Bytes, codes, strcmp, starts_with}
use sp.Base.Decimal.{decimal}
use sp.Booking.Line.{bytes, line, closed, iac_ip, handle_read}
use sp.Booking.Line.Laws.{handle_read-line, handle_read-no_line}
use sp.Booking.Number.{convert, signed}
use sp.Booking.Number.Laws.{convert-decimal}
use sp.Booking.Command.{words, command}
use sp.Booking.Totals.{IsBooked, AllBooked, on_input-AllBooked}
use sp.Booking.Command.Sums.{params_of}
use sp.Booking.Replies.{IsGone, booked_file, command_lem}
use sp.Booking.Server.{write_server, Request, Server, State, set_lock, disconnect, write_bookings}
use sp.Booking.Loop.{open_client, on_input}

abbrev empty_request : Request
empty_request = record { conn_fd = none; buf = []; buf_len = 0; id = 0; wait_for_write = 0 }

abbrev empty_server : Server
empty_server = record { requests = λ i. empty_request; master_set = λ i. false; arr = λ k. 0 }

abbrev fresh : State
fresh = record {
  server = empty_server;
  world = record {
    file = λ k. pos 1 ∷ pos 2 ∷ pos 3 ∷ [];
    read_locked = λ k. false;
    write_locked = λ k. false;
    sent = [];
  };
}

session : Result State
unfolding open_client on_input set_lock strcmp starts_with decimal ◌+ℤ◌ disconnect write_bookings
session = do
  s ← on_input write_server 5 (bytes (codes "902003\n")) (open_client 5 fresh)
  on_input write_server 5 (bytes (codes "4 -2 -1\n")) s

booked_of : Result State → Result (List ℤ)
booked_of r = do s ← r; ok (s.world.file 2)

session-booked : booked_of session ≡ ok (pos 5 ∷ pos 0 ∷ pos 2 ∷ [])
unfolding booked_of session
session-booked = refl

convert-decimal_example :
    (convert (decimal 42) ≡ ok (pos 42)) × (convert (b'-' ∷ decimal 42) ≡ ok (signed true 42))
convert-decimal_example = convert-decimal 42 (omega arith)

handle_read-line_example :
    (handle_read (bytes (codes "1 2 3" ++ 13 ∷ 10 ∷ codes "Exit")) ≡ ok (line (codes "1 2 3")))
    × (handle_read (bytes (codes "1 2 3" ++ 10 ∷ [])) ≡ ok (line (codes "1 2 3")))
handle_read-line_example =
    handle_read-line (codes "1 2 3") (codes "Exit") (omega arith) (omega arith)

handle_read-no_line_example :
    handle_read (bytes (codes "Exit"))
    ≡ (if starts_with iac_ip (codes "Exit") then ok closed else err exited)
handle_read-no_line_example =
    handle_read-no_line (codes "Exit") (omega arith) (omega arith) (omega arith) (omega arith)

abbrev some_bookings : List ℤ
some_bookings = pos 1 ∷ pos 2 ∷ pos 3 ∷ []

some_bookings-IsBooked : IsBooked some_bookings
some_bookings-IsBooked = ground arith

-- Client 5 has record 2, and has sent `text`.
abbrev sent_command : Bytes → State
sent_command text =
    let server = empty_server in
    record fresh {
      server = record server {
        requests = λ i. record empty_request { id = 902003; buf = text };
        arr = λ k. 1;
      };
    }

command_words : words (codes "4 -2 -1") ≡ codes "4" ∷ codes "-2" ∷ codes "-1" ∷ []
unfolding words
command_words = refl

command_lem_example :
    (t : State) × (command 5 (sent_command (codes "4 -2 -1")) ≡ ok t)
    × (t.world.file
        ≡ booked_file 2 (params_of (codes "4" ∷ codes "-2" ∷ codes "-1" ∷ [])) (λ k. some_bookings))
    × IsGone 5 t
command_lem_example =
    command_lem 5 (sent_command (codes "4 -2 -1")) (codes "4") (codes "-2") (codes "-1") []
      command_words (omega arith) some_bookings-IsBooked

abbrev value_or : Result State → State → State
value_or (ok t) s = t
value_or (err why) s = s

answered : State
unfolding on_input set_lock strcmp starts_with decimal ◌+ℤ◌ disconnect write_bookings
answered =
    value_or (on_input write_server 5 (bytes (codes "4 -2 -1\n")) (sent_command []))
      (sent_command [])

on_input-answered :
    on_input write_server 5 (bytes (codes "4 -2 -1\n")) (sent_command []) ≡ ok answered
unfolding answered
on_input-answered = refl

on_input-AllBooked_example : AllBooked answered
on_input-AllBooked_example =
    on_input-AllBooked write_server 5 (bytes (codes "4 -2 -1\n")) (sent_command []) answered
      (λ k. some_bookings-IsBooked) on_input-answered
