-- ===== src/Recommender/Main/First.antt =====
-- The one request that the server of processes answers.
use sp.Base.{refl, ◌<◌, ◌≡◌, List, ◌∷◌, ◌++◌, length, some, ok}
use sp.Base.Text.{Bytes, codes}
use sp.Recommender.Double.{Double, IsRanked}
use sp.Recommender.Serve.{Movie, Request, File, id_text, select, recommend}
use sp.Recommender.Serve.Correct.{recommend_process_lem}
use sp.Recommender.Merge.Correct.{Mergeable}
use sp.Recommender.Process.Correct.{Roomy}
use sp.Recommender.Load.{Numbers}
use sp.Recommender.Main.{initialize, pserver}

module _ {W : Type 0} ⦃d : Double W⦄ ⦃n : Numbers W⦄ (q : IsRanked W) where
  -- When `initialize` has read movies and requests, where the first request matches some movie, and
  -- the rows that match have scores that are numbers not below 0.0 and titles with no byte up to the
  -- tab and room for the secret in MAX_LEN bytes, the server of processes writes one file: its name
  -- is the id of the first request with p.out, and its text is what `Recommend` of the threads
  -- writes for that request.
  pub pserver_lem :
      (text input : Bytes) {movies : List (Movie W)} {r : Request W} {reqs : List (Request W)}
      → initialize text input ≡ ok (movies, r ∷ reqs)
      → 0 < length (select movies r)
      → Mergeable q (select movies r)
      → Roomy (select movies r)
      → (f : File) × (g : File) × (recommend movies r ≡ ok f)
        × (pserver W 1 (some text) input ≡ ok g)
        × (g.text ≡ f.text)
        × (g.name ≡ id_text r.id ++ codes "p.out")
  unfolding pserver
  pserver_lem text input {movies} {r} read found all room =
      let (f, g, threads, processes, same, _, name) =
        recommend_process_lem q movies r found all room in
      (f, g, threads, rw (read, processes) refl, same, name)
