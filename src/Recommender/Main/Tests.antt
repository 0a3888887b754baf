-- ===== src/Recommender/Main/Tests.antt =====
-- One movie and one request, from the texts to the file.
use mathlib.Core.List.{Perm}
use sp.Base.{◌<◌, ℕ, ◌≡◌, refl, List, [], ◌∷◌, ◌++◌, some, arith, ok, take}
use sp.Base.Sorted.{mem-All}
use sp.Base.Text.{Bytes, codes, strcmp, strstr}
use sp.Recommender.Samples.{whole, whole-IsRanked, IsMergeable-prop, digits, genres, up, up-IsEntry}
use sp.Recommender.Sort.{Row}
use sp.Recommender.Serve.{recommend, id_text, File, select}
use sp.Recommender.Load.{normalize}
use sp.Recommender.Load.Text.{text_of, movie_of}
use sp.Recommender.Workers.{exited, System, Run, num_of_workers}
use sp.Recommender.Workers.Ends.{workers_finish}
use sp.Recommender.Main.First.{pserver_lem}
use sp.Recommender.Process.Correct.{Roomy}
use native.Mathlib.Bridge.{le_prop}
use sp.Recommender.Main.Disk.{Apart}
use sp.Recommender.Main.{pserver, initialize, tserver}
use sp.Recommender.Main.Input.{Query, IsQuery, input_of, request_of, initialize-text}
use sp.Recommender.Main.Answers.{IsServed, AreAnswers, tserver_lem}

abbrev comedy : Query
comedy = record { id = 7; keywords = codes "p"; fields = take 18 genres ++ codes "0" ∷ [] }

comedy-IsQuery : IsQuery comedy
comedy-IsQuery = record {
  id = omega arith;
  keywords = ((λ e. cc), (refl, tt), omega arith);
  profile = ground arith;
  keywords_no_nul = ground arith;
  profile_no_nul = ground arith;
  fields = ground arith;
  all_genres = omega arith;
}

abbrev text : Bytes
text = (codes "id title genres" ++ (10 ∷ [])) ++ text_of (up ∷ [])

initialize-text_example :
    initialize {W = ℕ} text (input_of (comedy ∷ [])) ≡ ok (movie_of up ∷ [], request_of comedy ∷ [])
initialize-text_example =
    initialize-text (codes "id title genres") (up ∷ []) (comedy ∷ []) (ground arith) (omega arith)
      (up-IsEntry, tt) (omega arith) (comedy-IsQuery, tt) (omega arith)

abbrev matching : List (Row ℕ)
matching = record { title = codes "Up"; pts = 2 } ∷ []

select-up : select (movie_of up ∷ []) (request_of comedy) ≡ matching
unfolding select strstr strcmp normalize
select-up = refl

up-IsServed : IsServed whole-IsRanked (movie_of up ∷ []) (request_of comedy)
up-IsServed = record {
  matches = rw select-up (omega arith);
  mergeable = rw select-up (mem-All IsMergeable-prop matching (ground arith));
}

-- A run of the workers over one request.
abbrev finished :
    (j : ℕ) × (t : System) × Run 1 num_of_workers j t
    × ((i : ℕ) → i < num_of_workers → t.pc i ≡ exited)
finished = workers_finish 1 num_of_workers

abbrev mixed : (name earlier later : Bytes) → Bytes
mixed name earlier later = later

tserver_lem_example :
    (out : List File) × (files : List File) × (tserver ℕ mixed 1
        (some text)
        (input_of (comedy ∷ []))
        finished.1.served
      ≡ ok out)
    × Perm out files
    × Apart out
    × AreAnswers whole-IsRanked (movie_of up ∷ []) (request_of comedy ∷ []) files
tserver_lem_example =
    tserver_lem whole-IsRanked mixed text (input_of (comedy ∷ [])) initialize-text_example
      (omega arith, tt, tt) (up-IsServed, tt) finished.2 finished.3

matching-Roomy : Roomy {W = ℕ} (select (movie_of up ∷ []) (request_of comedy))
matching-Roomy = rw select-up (mem-All (λ r. le_prop) matching (omega arith))

pserver_lem_example :
    (f : File) × (g : File) × (recommend {W = ℕ} (movie_of up ∷ []) (request_of comedy) ≡ ok f)
    × (pserver ℕ 1 (some text) (input_of (comedy ∷ [])) ≡ ok g)
    × (g.text ≡ f.text)
    × (g.name ≡ id_text 7 ++ codes "p.out")
pserver_lem_example =
    pserver_lem whole-IsRanked text (input_of (comedy ∷ [])) initialize-text_example
      up-IsServed.matches up-IsServed.mergeable matching-Roomy
