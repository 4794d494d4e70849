-- ===== src/Ingestion/Router/Topics.antt =====
-- `EventRouter.route`: both topics or an exception.
use nexusfeed.Prelude.{ℕ, suc, ◌+◌, ◌≤◌, ◌≡◌, refl, ◌∙◌, ap, List, inl, inr, arith}
use nexusfeed.Types.{Event}
use nexusfeed.World.{World, Exn, Sending, Message, Result, ok, raise}
use nexusfeed.Ingestion.Producer.{send, default_max_retries}
use nexusfeed.Ingestion.Producer.Copies.{copies}
use nexusfeed.Ingestion.Producer.Reports.{Result-cases, send-frame, send_returned, send-copies}
use nexusfeed.Ingestion.Router.{user_message, item_message, route}

-- What is sent, by what was sent before: at least one copy on each topic, or an error, after which
-- the item's message is there only if the user's is.
pub data Routed (event : Event) (before after : List Message) (r : Result (Unit {0})) : Type 0 where
  both :
      (again_user again_item : ℕ)
      → again_user ≤ default_max_retries
      → again_item ≤ default_max_retries
      → r ≡ ok tt
      → after
        ≡ copies
            (suc again_item)
            (item_message event)
            (copies (suc again_user) (user_message event) before)
      → Routed event before after r
  user_failed :
      (e : Exn) (count : ℕ)
      → count ≤ default_max_retries + 1
      → r ≡ raise e
      → after ≡ copies count (user_message event) before
      → Routed event before after r
  item_failed :
      (e : Exn) (again_user count : ℕ)
      → again_user ≤ default_max_retries
      → count ≤ default_max_retries + 1
      → r ≡ raise e
      → after
        ≡ copies count (item_message event) (copies (suc again_user) (user_message event) before)
      → Routed event before after r

module _ {S : Type 0} (broker : ℕ → Sending) (event : Event) (w : World S) where
  abbrev first : World S × Result (Unit {0})
  first = send broker default_max_retries (user_message event) w

  abbrev second_send : World S × Result (Unit {0})
  second_send = send broker default_max_retries (item_message event) first.0

  pub route_first : (e : Exn) → first.1 ≡ raise e → route broker event w ≡ (first.0, raise e)
  unfolding route
  route_first e h = ground arith

  route_second : first.1 ≡ ok tt → route broker event w ≡ second_send
  unfolding route
  route_second h = ground arith

  -- `route` leaves Redis and the database alone. If it returns, the event is on user-events under
  -- the user's key and then on item-events under the item's, on each at least once and at most four
  -- times: a retry whose first try was stored is a copy. If it raises, at most four copies are on
  -- user-events, and nothing is on item-events unless the user's message was acknowledged.
  pub route_lem :
      let end = route broker event w in
      (end.0.redis ≡ w.redis)
      × (end.0.interactions ≡ w.interactions)
      × Routed event w.sent end.0.sent end.1
  route_lem =
      let (redis1, rows1) = send-frame broker (user_message event) default_max_retries w in
      let (redis2, rows2) = send-frame broker (item_message event) default_max_retries first.0 in
      elim (Result-cases first.1) [
        | inr (e, raised) ↦
            let (count, le, sent) = send-copies broker (user_message event) default_max_retries w in
            rw (route_first e raised) (redis1, rows1, user_failed e count le refl sent)
        | inl returned ↦
            let (again, le, sent) =
              send_returned broker (user_message event) default_max_retries w returned in
            rw (route_second returned) (
              redis2 ∙ redis1,
              rows2 ∙ rows1,
              elim (Result-cases second_send.1) [
                | inl done ↦
                    let (again', le', sent') =
                      send_returned broker (item_message event) default_max_retries first.0 done in
                    both again again' le le' done
                      (sent' ∙ ap (copies (suc again') (item_message event)) sent)
                | inr (e, raised) ↦
                    let (count, le', sent') =
                      send-copies broker (item_message event) default_max_retries first.0 in
                    item_failed e again count le le' raised
                      (sent' ∙ ap (copies count (item_message event)) sent)
              ],
            )
      ]
