-- ===== src/Booking/Main/Tests.antt =====
-- Two rounds of the read server: a client comes, and gives its id.
use sp.Base.{ℕ, ◌≡◌, refl, [], ◌∷◌, none, ◌==◌, if◌then◌else◌, Result, ok, err}
use sp.Base.Int.{pos}
use sp.Base.Text.{codes, strcmp, starts_with}
use sp.Booking.Line.{bytes, eof}
use sp.Booking.Server.{read_server, Request, State, set_lock, disconnect, write_bookings}
use sp.Booking.Locks.Apart.{Servers, view, after, both_start, Reachable, started}
use sp.Booking.Main.{conn, again, Arrivals, round}
use sp.Booking.Main.Rounds.{round-Reachable}
use sp.Booking.Main.Bystanders.{round_idle}

abbrev unused : ℕ → Request
unused i = record { conn_fd = none; buf = []; buf_len = 0; id = 7; wait_for_write = 0 }

abbrev begun : Servers
begun = both_start 3 3 unused unused (λ k. pos 1 ∷ pos 2 ∷ pos 3 ∷ [])

abbrev comes : Arrivals
comes = record { ready = λ i. i == 3; accepted = conn 5; inputs = λ i. eof }

abbrev value_or : Result State → State → State
value_or (ok t) s = t
value_or (err why) s = s

welcomed : State
unfolding round both_start
welcomed = value_or (round read_server 8 3 comes (view read_server begun)) (view read_server begun)

welcomed-round : round read_server 8 3 comes (view read_server begun) ≡ ok welcomed
unfolding welcomed
welcomed-round = refl

abbrev later : Servers
later = after read_server begun welcomed

later-Reachable : Reachable 8 later
later-Reachable =
    round-Reachable read_server 3 comes begun welcomed
      (started 3 3 unused unused (λ k. pos 1 ∷ pos 2 ∷ pos 3 ∷ [])) welcomed-round

abbrev gives_id : Arrivals
gives_id = record {
  ready = λ i. i == 5;
  accepted = again;
  inputs = λ i. if i == 5 then bytes (codes "902003\n") else eof;
}

served : State
unfolding round set_lock strcmp starts_with disconnect write_bookings welcomed
served = value_or (round read_server 8 3 gives_id welcomed) welcomed

served-round : round read_server 8 3 gives_id welcomed ≡ ok served
unfolding served
served-round = refl

served-id : (served.server.requests 5).id ≡ 902003
unfolding served
served-id = refl

round-Reachable_example : Reachable 8 (after read_server later served)
round-Reachable_example =
    round-Reachable read_server 3 gives_id later served later-Reachable served-round

round_idle_example :
    (served.server.requests 3 ≡ welcomed.server.requests 3)
    × (served.server.master_set 3 ≡ welcomed.server.master_set 3)
round_idle_example =
    round_idle read_server 8 3 gives_id welcomed served 3 refl (λ new. new) served-round
