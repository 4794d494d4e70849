-- ===== src/Tests/Feed.antt =====
-- Retrieval and the feed: an index of three vectors in which a search finds the first.
use mathlib.Core.List.{Mem, mem-cons_self}
use mathlib.Core.Logic.{◌≢◌}
use mathlib.Core.Logic.Or
use nexusfeed.Prelude.{
  ℕ, zero, suc, ◌+◌, ◌≤◌, ◌≡◌, refl, ap, ◌⊎◌, true, false, none, some, List, [], ◌∷◌, ◌++◌, map,
  String, take, length, replicate, elem, string_eq, filter, nat_beq, if◌then◌else◌,
}
use nexusfeed.Prelude.Int.{ℤ, pos, negsuc}
use nexusfeed.World.{Exn, Result, ok, raise}
use nexusfeed.Retrieval.FaissIndex.{Faiss, labels, FaissIndex, Matrix, is_ready, load, search}
use nexusfeed.Retrieval.FaissIndex.Search.{load-search_unnamed}
use nexusfeed.Retrieval.CandidateGenerator.{forced_limit, trending_limit, or_nil, retrieve}
use nexusfeed.Retrieval.CandidateGenerator.Candidates.{Extended, retrieve-Extended}
use nexusfeed.Experiments.Bandit.{Draw, available_for, inject_exploration_slots}
use nexusfeed.Experiments.Bandit.Slots.{inject_exploration_slots-last}
use nexusfeed.Api.Feed.{slot_fraction, numbered, feed_items_of, Services, FeedResponse, get_feed}
use nexusfeed.Api.Feed.Answers.{IsAnswer, get_feed_total}
use nexusfeed.Features.UserFeatures.{Numerics, get_embedding, cold_start_embedding}
use nexusfeed.Features.OfflineStore.{get_user_preferred_categories}
use nexusfeed.Features.OnlineStore.{
  get_user_embedding, get_trending, batch_get_item_features, get_recent_items,
}
use nexusfeed.World.{World, Message}
use nexusfeed.Tests.Packing.{hex}
use nexusfeed.Tests.Store.{Store, memory}
use nexusfeed.Api.Feed.Slots.{feed_items_of_lem}
use nexusfeed.Tests.Data.{item, distinct_abc, hundredths_float, world_at, noon}

abbrev missing : ℕ → List (ℤ × ℕ)
missing k = replicate k (negsuc 0, 0)

abbrev found : ℕ → ℕ → List (ℤ × ℕ)
found zero k = missing k
found (suc n) zero = []
found (suc n) (suc k) = (pos 0, 90) ∷ missing k

-- no result for no neighbour, and for a query of another length
abbrev answer_of : (dim n : ℕ) (query : List ℕ) (k : ℕ) → Result (List (ℤ × ℕ))
answer_of dim n query zero = raise Exn.library_error
answer_of dim n query (suc k) =
    if nat_beq (length query) dim then ok (found n (suc k)) else raise Exn.library_error

abbrev pub first_only : Faiss ℕ
first_only = record {
  Index = ℕ × ℕ;
  new = λ dim m c s. (dim, 0);
  add = λ index vectors. (index.0, index.1 + length vectors);
  ntotal = λ index. index.1;
  dim_of = λ index. index.0;
  search = λ index query k. answer_of index.0 index.1 query k;
  normalize = λ v. v;
}

index_of : ℤ → ℕ
index_of (pos i) = i
index_of (negsuc i) = 0

abbrev self : FaissIndex first_only
self = record { dim = 2; m = 32; ef_construction = 200; ef_search = 64; index = none; id_map = [] }

abbrev ids : List String
ids = "a" ∷ "b" ∷ "c" ∷ []

abbrev vectors : Matrix ℕ
vectors = record { columns = 2; rows = (1 ∷ 2 ∷ []) ∷ (3 ∷ 4 ∷ []) ∷ (5 ∷ 6 ∷ []) ∷ [] }

load-search_unnamed_example :
    (search first_only (load first_only self (2, 3) none) (1 ∷ 1 ∷ []) 2 ≡ raise Exn.index_error)
    × (is_ready first_only (load first_only self (2, 3) none) ≡ true)
unfolding labels
load-search_unnamed_example =
    load-search_unnamed first_only self (2, 3) (1 ∷ 1 ∷ []) 2 0 (found 3 2) refl mem-cons_self

retrieve-Extended_example :
    (candidates : List (String × ℕ)) × (retrieve (ok (("a", 90) ∷ [])) (some ("b" ∷ "a" ∷ [])) none
      ≡ ok candidates)
    × Extended
        (take forced_limit (or_nil none) ++ take trending_limit (or_nil (some ("b" ∷ "a" ∷ []))))
        (("a", 90) ∷ [])
        candidates
    × (length candidates ≤ 16)
retrieve-Extended_example = retrieve-Extended (("a", 90) ∷ []) (some ("b" ∷ "a" ∷ [])) none

abbrev draws : ℕ → Draw ℕ
draws n = record { random = 5; choice = n }

inject_exploration_slots-last_example :
    (last : String) × (inject_exploration_slots 10 [] draws ("a" ∷ "b" ∷ []) ids slot_fraction
      ≡ "a" ∷ last ∷ [])
    × (((available_for ("a" ∷ "b" ∷ []) ids ≡ []) × (last ≡ "b"))
        ⊎ (Mem last ids × (elem last ("a" ∷ "b" ∷ []) ≡ false)))
inject_exploration_slots-last_example =
    inject_exploration_slots-last [] 10 draws ("a" ∷ []) "b" ids slot_fraction

feed_items_of_lem_example :
    ((available_for ids ("z" ∷ ids) ≡ [])
      × (feed_items_of 10 [] draws (item "a" 90 ∷ item "b" 80 ∷ item "c" 70 ∷ []) ("z" ∷ ids)
          ≡ numbered 1 (item "a" 90 ∷ item "b" 80 ∷ item "c" 70 ∷ [])))
    ⊎ ((available_for ids ("z" ∷ ids) ≢ [])
        × (feed_items_of 10 [] draws (item "a" 90 ∷ item "b" 80 ∷ item "c" 70 ∷ []) ("z" ∷ ids)
            ≡ numbered 1 (item "a" 90 ∷ item "b" 80 ∷ [])))
feed_items_of_lem_example =
    feed_items_of_lem 10 [] draws (item "a" 90 ∷ item "b" 80 ∷ []) (item "c" 70) ("z" ∷ ids)
      distinct_abc

abbrev no_numerics : Numerics ℕ
no_numerics = record {
  sorted = λ xs. [];
  abs_hash = λ xs. 7;
  normal = λ seed n. seed ∷ n ∷ [];
  codec = hex;
}

abbrev running : World Store
running = world_at noon true

-- the scores of a model that gives each row a score
abbrev flat : List (List ℕ) → List ℕ
flat rows = map (λ row. 50) rows

abbrev services : Services ℕ ℕ memory
services = record {
  numerics = no_numerics;
  find_user = λ u. ok none;
  search = λ query k. ok (("a", 90) ∷ ("b", 80) ∷ ("c", 70) ∷ []);
  is_uuid = λ x. false;
  model = some flat;
  max_sim_of = λ vs. some (λ is i. 0);
  epsilon = 10;
  arms = [];
  draws = draws;
  sha256 = λ prefix user_id. 5_042;
  experiments = [];
  model_version = none;
}

length-flat : (rows : List (List ℕ)) → length (flat rows) ≡ length rows
length-flat [] = refl
length-flat (row ∷ rows) = ap suc (length-flat rows)

get_feed_total_example :
    (answer : FeedResponse ℕ × Message) × ((get_feed memory services "u1" (pos 2) running).1
      ≡ ok answer)
    × IsAnswer memory services "u1" 2 true
        (("a", 90) ∷ ("b", 80) ∷ ("c", 70) ∷ [])
        []
        (("a", 90) ∷ ("b", 80) ∷ ("c", 70) ∷ [])
        answer
unfolding get_embedding get_user_embedding get_user_preferred_categories cold_start_embedding
    get_trending retrieve batch_get_item_features filter get_recent_items
get_feed_total_example =
    get_feed_total memory services "u1" 2 running running running running running
      (no_numerics.normal 7 128, true) [] (("a", 90) ∷ ("b", 80) ∷ ("c", 70) ∷ [])
      (("a", 90) ∷ ("b", 80) ∷ ("c", 70) ∷ []) [] [] refl refl refl refl refl refl distinct_abc
      length-flat
