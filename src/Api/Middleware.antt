-- ===== src/Api/Middleware.antt =====
-- nexusfeed/api/middleware and the stack of nexusfeed/api/main.py. A handler, which FastAPI passes to
-- a middleware as `call_next`, is a function of the request. The durations in the access log are left
-- out, and so is the context variable that carries the request's id into the application's logs.
pub mod Access
pub mod Limit
use nexusfeed.Prelude.{
  ℕ, Bool, true, false, not, Option, none, some, List, [], ◌∷◌, String, if◌then◌else◌, elem, put,
  string_eq,
}
use nexusfeed.Prelude.Text.{starts_with, rstrip_slash}
use nexusfeed.Float.{Float}
use nexusfeed.Redis.{Redis}
use nexusfeed.World.{AccessLine, ok, World, M, pure, ◌>>=◌}
use nexusfeed.Features.OnlineStore.{rate_limit_hit}

pub record Request : Type 0 where
  pub method : String
  pub path : String
  -- the header that `settings.api_key_header` names, and X-Request-ID
  pub key_header : Option String
  pub request_id_header : Option String
  -- `request.state`, as far as the middleware fills it
  pub api_key : Option String
  pub request_id : Option String

pub data Content (B : Type 0) : Type 0 where
  detail : String → Content B
  body : B → Content B

pub record Response (B : Type 0) : Type 0 where
  pub status_code : ℕ
  pub content : Content B
  pub headers : List (String × String)

pub record Settings : Type 0 where
  pub api_keys : List String
  pub rate_limit_window_seconds : ℕ
  pub rate_limit_events_per_second : ℕ

abbrev pub public_paths : List String
public_paths = "/health" ∷ "/docs" ∷ "/openapi.json" ∷ "/redoc" ∷ "/metrics" ∷ []

-- a handler, for a store and a type of results
abbrev pub Handler : Type 0 → Type 0 → Type 0
Handler S B = Request → M S (Response B)

unfoldable pub is_public : (path : String) → Bool
unfolding rstrip_slash elem
is_public path = elem (rstrip_slash path) public_paths

-- `api_key is None or api_key not in settings.api_keys`
unfoldable pub is_refused : Settings → Option String → Bool
unfolding elem
is_refused settings none = true
is_refused settings (some api_key) = not (elem api_key settings.api_keys)

abbrev pub unauthorized : {B : Type 0} → Response B
unauthorized = record {
  status_code = 401;
  content = Content.detail "invalid or missing API key";
  headers = [];
}

-- what `settings.rate_limit_window_seconds` is printed as is the argument `str`
abbrev pub too_many : {B : Type 0} → (str : ℕ → String) → Settings → Response B
too_many str settings = record {
  status_code = 429;
  content = Content.detail "rate limit exceeded";
  headers = ("Retry-After", str settings.rate_limit_window_seconds) ∷ [];
}

abbrev pub key_or_anonymous : Option String → String
key_or_anonymous none = "anonymous"
key_or_anonymous (some api_key) = api_key

abbrev pub is_events : (path : String) → Bool
is_events path = starts_with path "/events"

module _ {S B : Type 0} (settings : Settings) where
  unfoldable pub auth_dispatch : Handler S B → Handler S B
  auth_dispatch call_next request =
      if is_public request.path
      then call_next request
      else if is_refused settings request.key_header
      then pure unauthorized
      else call_next (record request { api_key = request.key_header })

module _ {W B : Type 0} ⦃f : Float W⦄ (r : Redis W) (settings : Settings) (str : ℕ → String) where
  -- `connected` tells whether the app has a Redis client
  unfoldable pub rate_limit_dispatch : (connected : Bool) → Handler r.Store B → Handler r.Store B
  rate_limit_dispatch connected call_next request =
      if not (is_events request.path)
      then call_next request
      else if not connected
      then call_next request
      else (do
        (allowed, count) ←
            rate_limit_hit r (key_or_anonymous request.api_key) settings.rate_limit_window_seconds
              settings.rate_limit_events_per_second
        if not allowed then pure (too_many str settings) else call_next request)

-- `request.headers.get("X-Request-ID", new_id)`
abbrev pub id_or : String → Option String → String
id_or new_id none = new_id
id_or new_id (some id) = id

-- `response.headers["X-Request-ID"] = request_id`
unfoldable pub tagged : {B : Type 0} → String → Response B → Response B
unfolding put
tagged request_id response = record response {
  headers = put "X-Request-ID" request_id response.headers;
}

module _ {S B : Type 0} where
  -- `new_id` is the UUID drawn for a request that brings no id
  unfoldable pub request_id_dispatch : (new_id : String) → Handler S B → Handler S B
  request_id_dispatch new_id call_next request =
      let request_id = id_or new_id request.request_id_header in
      do
        response ← call_next (record request { request_id = some request_id })
        pure (tagged request_id response)

module _ {S B : Type 0} where
  -- the line that the response of a request adds to the log
  abbrev pub log_access : Request → Response B → M S (Response B)
  log_access request response w =
      let line : AccessLine = record {
        method = request.method;
        path = request.path;
        status_code = response.status_code;
      } in
      (record w { access_log = line ∷ w.access_log }, ok response)

  unfoldable pub access_log_dispatch : Handler S B → Handler S B
  access_log_dispatch call_next request = do
    response ← call_next request
    log_access request response

-- `create_app`: the middleware that is added last is called first. `routes` are the endpoints.
module _ {W B : Type 0} ⦃f : Float W⦄ (r : Redis W) (settings : Settings) (str : ℕ → String) where
  unfoldable pub create_app :
      (connected : Bool) (new_id : String) → Handler r.Store B → Handler r.Store B
  create_app connected new_id routes = request_id_dispatch new_id (
      auth_dispatch settings
        (rate_limit_dispatch r settings str connected (access_log_dispatch routes)))
