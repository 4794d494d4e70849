-- ===== src/Api/Middleware/Access.antt =====
-- What a request without a valid key reaches.
use mathlib.Core.List.{Mem}
use nexusfeed.Prelude.{
  ℕ, ◌≡◌, refl, Bool, true, false, Option, none, some, List, String, elem, Mem_of_elem, string_eq,
  Bool-cases, inl, inr, arith,
}
use nexusfeed.Prelude.Text.{rstrip_slash}
use nexusfeed.Float.{Float}
use nexusfeed.Redis.{Redis}
use nexusfeed.World.{World, ok}
use nexusfeed.Api.Middleware.{
  Request, Settings, Handler, public_paths, is_public, is_refused, unauthorized, id_or, tagged,
  auth_dispatch, request_id_dispatch, create_app,
}

elem_of_not-Mem : (x : String) (xs : List String) → ¬ Mem x xs → elem x xs ≡ false
elem_of_not-Mem x xs missing = elim (Bool-cases (elem x xs)) [
  | inl found ↦ absurd (missing (Mem_of_elem x xs found))
  | inr other ↦ other
]

not_public : (path : String) → ¬ Mem (rstrip_slash path) public_paths → is_public path ≡ false
unfolding is_public
not_public path h = elem_of_not-Mem _ _ h

refused :
    (settings : Settings) (header : Option String)
    → ((key : String) → header ≡ some key → ¬ Mem key settings.api_keys)
    → is_refused settings header ≡ true
unfolding is_refused
refused settings none unknown = refl
refused settings (some key) unknown =
    rw (elem_of_not-Mem key settings.api_keys (unknown key refl)) refl

module _ {W B : Type 0} ⦃f : Float W⦄ (r : Redis W) (settings : Settings) (str : ℕ → String)
    (connected : Bool) (new_id : String) where
  -- A request whose path, without slashes at its end, is not public, and whose header holds no key or
  -- one that is not in the settings, is answered by 401 and the request's id, whatever the endpoints
  -- are: none of them runs, Redis gets no command, and nothing in the world changes.
  pub create_app-unauthorized :
      (routes : Handler r.Store B) (request : Request) (w : World r.Store)
      → ¬ Mem (rstrip_slash request.path) public_paths
      → ((key : String) → request.key_header ≡ some key → ¬ Mem key settings.api_keys)
      → create_app r settings str connected new_id routes request w
        ≡ (w, ok (tagged (id_or new_id request.request_id_header) unauthorized))
  unfolding create_app request_id_dispatch auth_dispatch
  create_app-unauthorized routes request w private unknown =
      let closed : is_public request.path ≡ false = not_public request.path private in
      let bad : is_refused settings request.key_header ≡ true =
        refused settings request.key_header unknown in
      ground arith
