-- ===== src/Tests/Api.antt =====
-- The middleware on a Redis in memory, and the list of similar items.
use mathlib.Core.List.{Mem, mem-cons, not-mem-nil}
use mathlib.Core.List.Perm
use mathlib.Core.Logic.Or
use mathlib.Core.HLevel.{⊥_prop}
use mathlib.Core.Option.{some-injective}
use nexusfeed.Prelude.{
  ◌∙◌, ℕ, ◌≡◌, refl, true, false, none, some, List, [], ◌∷◌, String, elem, string_eq, filter, arith,
}
use nexusfeed.Prelude.Text.{starts_with, rstrip_slash}
use nexusfeed.World.{World, ok}
use nexusfeed.Api.Middleware.{
  Request, Content, Settings, Handler, is_public, is_refused, public_paths, unauthorized, tagged,
  create_app,
}
use nexusfeed.Api.Middleware.Access.{create_app-unauthorized}
use nexusfeed.Api.Middleware.Limit.{Limited, respond, create_app-Limited}
use nexusfeed.Features.OnlineStore.RateLimit.{InWindow}
use nexusfeed.Repositories.Items.{Item, get_item, most_similar, without}
use nexusfeed.Retrieval.FaissIndex.{FaissIndex}
use nexusfeed.Api.Similar.{SimilarItemsResponse, ranked, results_for, get_similar_items}
use nexusfeed.Api.Similar.Results.{IsSimilarTo, get_similar_items-IsSimilarTo}
use nexusfeed.Tests.Store.{Store, memory, memory-Laws, memory-CounterLaws}
use nexusfeed.Tests.Data.{noon, world_at, apart, hundredths_float}
use nexusfeed.Tests.Feed.{first_only}

abbrev settings : Settings
settings = record {
  api_keys = "key" ∷ [];
  rate_limit_window_seconds = 1;
  rate_limit_events_per_second = 2;
}

abbrev str : ℕ → String
str n = "1"

abbrev request : Request
request = record {
  method = "POST";
  path = "/events";
  key_header = some "key";
  request_id_header = none;
  api_key = none;
  request_id = none;
}

abbrev stranger : Request
stranger = record request { key_header = some "guess" }

-- endpoints that change nothing
abbrev routes : Handler Store ℕ
routes req w = (w, ok (record { status_code = 202; content = Content.body 1; headers = [] }))

abbrev running : World Store
running = world_at noon true

private_path : ¬ Mem (rstrip_slash "/events") public_paths
unfolding rstrip_slash
private_path m = Or.elim ⊥_prop (mem-cons.0 m) (apart "/events" "/health" refl) (λ n.
    Or.elim ⊥_prop (mem-cons.0 n) (apart "/events" "/docs" refl) (λ n.
      Or.elim ⊥_prop (mem-cons.0 n) (apart "/events" "/openapi.json" refl) (λ n.
        Or.elim ⊥_prop (mem-cons.0 n) (apart "/events" "/redoc" refl)
          (λ n. Or.elim ⊥_prop (mem-cons.0 n) (apart "/events" "/metrics" refl) not-mem-nil))))

unknown_key : (key : String) → some "guess" ≡ some key → ¬ Mem key ("key" ∷ [])
unknown_key key same m =
    Or.elim ⊥_prop (mem-cons.0 m)
      (λ (e : key ≡ "key"). apart "guess" "key" refl (some-injective _ _ same ∙ e)) not-mem-nil

create_app-unauthorized_example :
    create_app memory settings str true "id" routes stranger running
    ≡ (running, ok (tagged "id" unauthorized))
create_app-unauthorized_example =
    create_app-unauthorized memory settings str true "id" routes stranger running private_path
      unknown_key

abbrev times : List ℕ
times = noon ∷ 1_000_000_000_010 ∷ 1_000_000_000_020 ∷ []

in_window : InWindow memory "key" 1 2 1_000_000 noon times
in_window =
    InWindow.next (omega arith) refl
      (InWindow.next (omega arith) refl (InWindow.next (omega arith) refl InWindow.stop))

closed : is_public "/events" ≡ false
unfolding is_public rstrip_slash elem
closed = refl

valid : is_refused settings (some "key") ≡ false
unfolding is_refused elem
valid = refl

under_events : starts_with "/events" "/events" ≡ true
unfolding starts_with
under_events = refl

create_app-Limited_example :
    Limited memory settings str "id" routes request "key" 0 running times
      (respond memory settings str "id" routes request "key" times running)
create_app-Limited_example =
    create_app-Limited memory settings str "id" routes request "key" refl closed valid under_events
      memory-Laws memory-CounterLaws 1_000_000 (λ v t. refl) noon running times (omega arith)
      (λ t h. refl) in_window

abbrev stored : String → Item ℕ
stored id = record {
  id = id;
  category = "news";
  content_text = none;
  embedding = some (1 ∷ []);
  freshness_score = 100;
  popularity_score = 0;
  impression_count = 0;
  historical_ctr = 0;
  created_at = 0;
}

abbrev items : List (Item ℕ)
items = stored "a" ∷ stored "b" ∷ stored "c" ∷ []

-- an index that is not built yet
abbrev cold : FaissIndex first_only
cold = record { dim = 1; m = 32; ef_construction = 200; ef_search = 50; index = none; id_map = [] }

abbrev as_stored : List ℕ → List (Item ℕ) → List (Item ℕ)
as_stored e xs = xs

abbrev answer : SimilarItemsResponse ℕ
answer = record { item_id = "b"; similar_items = ranked 1 (("a", 100) ∷ []) }

answered : get_similar_items first_only cold as_stored items "b" 1 ≡ ok answer
unfolding get_similar_items results_for get_item most_similar without filter
answered = refl

get_similar_items-IsSimilarTo_example : IsSimilarTo "b" 1 answer
get_similar_items-IsSimilarTo_example =
    get_similar_items-IsSimilarTo first_only cold as_stored (λ e xs. Perm.refl xs) items "b" 1
      answer answered
