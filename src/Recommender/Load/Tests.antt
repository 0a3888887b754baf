-- ===== src/Recommender/Load/Tests.antt =====
-- A file with two movies, whose numbers have one digit.
use sp.Base.{ℕ, ◌≡◌, [], ◌∷◌, arith, err, bad_access}
use sp.Base.Text.{codes}
use sp.Recommender.Samples.{whole, digits}
use sp.Recommender.Load.{read_request}
use sp.Recommender.Load.Requests.{read_request_lem}

read_request_lem_example : read_request {W = ℕ} 7 (codes "*") (codes "1,2") ≡ err bad_access
read_request_lem_example =
    read_request_lem 7 (codes "*") (codes "1" ∷ codes "2" ∷ []) (ground arith)
