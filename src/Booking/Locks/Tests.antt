-- ===== src/Booking/Locks/Tests.antt =====
-- A client at each of the servers.
use sp.Base.{ℕ, ◌≡◌, ◌≢◌, refl, [], ◌∷◌, none, Result, ok, err, arith, ◌&&◌}
use sp.Base.Int.{pos}
use sp.Base.Text.{codes, strcmp, starts_with}
use sp.Booking.Line.{bytes}
use sp.Booking.Server.{
  read_server, write_server, Request, State, set_lock, disconnect, write_bookings, slot, admit,
  is_id,
}
use sp.Booking.Loop.{on_input}
use sp.Booking.Locks.Apart.{
  Servers, view, after, both_start, Reachable, started, goes_on, answers, Inv, Reachable-Inv,
}
use sp.Booking.Locks.Exclusion.{readers_apart, writers_apart, is_free, admit_served}

abbrev unused : ℕ → Request
unused i = record { conn_fd = none; buf = []; buf_len = 0; id = 7; wait_for_write = 0 }

abbrev begun : Servers
begun = both_start 3 3 unused unused (λ k. pos 1 ∷ pos 2 ∷ pos 3 ∷ [])

abbrev value_or : Result State → State → State
value_or (ok t) s = t
value_or (err why) s = s

first : State
unfolding on_input set_lock strcmp starts_with disconnect write_bookings both_start
first =
    value_or (on_input read_server 5 (bytes (codes "902003\n")) (view read_server begun))
      (view read_server begun)

first_run : on_input read_server 5 (bytes (codes "902003\n")) (view read_server begun) ≡ ok first
unfolding first
first_run = refl

abbrev read_once : Servers
read_once = after read_server begun first

second : State
unfolding on_input set_lock strcmp starts_with disconnect write_bookings first
second =
    value_or (on_input write_server 5 (bytes (codes "902004\n")) (view write_server read_once))
      (view write_server read_once)

second_run :
    on_input write_server 5 (bytes (codes "902004\n")) (view write_server read_once) ≡ ok second
unfolding second
second_run = refl

abbrev busy : Servers
busy = after write_server read_once second

busy_reached : Reachable 20 busy
busy_reached =
    goes_on
      (goes_on (started 3 3 unused unused (λ k. pos 1 ∷ pos 2 ∷ pos 3 ∷ []))
        (answers read_server 5 (bytes (codes "902003\n")) first (omega arith) first_run))
      (answers write_server 5 (bytes (codes "902004\n")) second (omega arith) second_run)

reader_id : (busy.reader.requests 5).id ≡ 902003
unfolding first second
reader_id = refl

writer_id : (busy.writer.requests 5).id ≡ 902004
unfolding second
writer_id = refl

reader_known : (busy.reader.requests 5).id ≢ 0
reader_known e = absurd (omega (arith, e, reader_id))

writer_known : (busy.writer.requests 5).id ≢ 0
writer_known e = absurd (omega (arith, e, writer_id))

Reachable-Inv_example : Inv 20 busy
Reachable-Inv_example = Reachable-Inv busy_reached

readers_apart_example : (busy.reader.requests 5).id ≢ (busy.writer.requests 5).id
readers_apart_example = readers_apart busy_reached 5 5 (omega arith) (omega arith) reader_known

writers_apart_example : (busy.writer.requests 5).id ≢ (busy.writer.requests 6).id
writers_apart_example =
    writers_apart busy_reached 5 6 (omega arith) (omega arith) (omega arith) writer_known

admit-served_example :
    (admit write_server 6 (pos 902003) (view write_server busy)).1
    ≡ (is_id (pos 902003) && is_free write_server 20 (slot 902003) busy)
admit-served_example = admit_served busy_reached write_server 6 (pos 902003)
