-- ===== src/Repositories/Users.antt =====
-- nexusfeed/db/repositories/user_repo.py: `UserRepository`.
use nexusfeed.Prelude.{
  ℕ, ◌≡◌, refl, sym, subst, map, Option, none, some, List, [], ◌∷◌, String, take, get, put, ◌==◌,
  string_eq, if◌then◌else◌, get-put, arith, Bool-cases, inl, inr,
}
use mathlib.Core.List.{Mem, Nodup, Nodup-cons, mem-cons_self, mem-cons_of_mem}
use nexusfeed.Types.{Uuid, Time}

-- a row of the table users; `V` is a value of its JSON
pub record User (V : Type 0) : Type 0 where
  pub id : Uuid
  pub created_at : Time
  pub metadata : List (String × V)

module _ {V : Type 0} where
  unfoldable pub create :
      (id : Uuid) (now : Time) (metadata : Option (List (String × V)))
      → List (User V)
      → List (User V) × User V
  create id now metadata users =
      let user : User V = record {
        id = id;
        created_at = now;
        metadata = elim metadata [ none ↦ [] | some m ↦ m ];
      } in
      (user ∷ users, user)

  -- `session.get(User, user_id)`
  unfoldable pub get_user : Uuid → List (User V) → Option (User V)
  get_user user_id [] = none
  get_user user_id (user ∷ users) = if user.id == user_id then some user else get_user user_id users

  -- `newest_first` is the order of `created_at DESC`
  unfoldable pub list_recent :
      (newest_first : List (User V) → List (User V)) (limit : ℕ) → List (User V) → List (User V)
  list_recent newest_first limit users = take limit (newest_first users)

  -- `{**old, **new}`
  unfoldable pub merged : (old new : List (String × V)) → List (String × V)
  unfolding put
  merged old [] = old
  merged old ((k, v) ∷ new) = merged (put k v old) new

  -- the row of `user`, changed in the session, is flushed
  unfoldable pub flush_user : User V → List (User V) → List (User V)
  flush_user changed [] = []
  flush_user changed (user ∷ users) =
      if user.id == changed.id then changed ∷ users else user ∷ flush_user changed users

  unfoldable pub update_metadata :
      Uuid → (metadata : List (String × V)) → List (User V) → List (User V) × Option (User V)
  update_metadata user_id metadata users = elim (get_user user_id users) [
    | none ↦ (users, none)
    | some user ↦
        let changed = record user { metadata = merged user.metadata metadata } in
        (flush_user changed users, some changed)
  ]

  get_user-id :
      (user_id : Uuid) (users : List (User V)) (user : User V)
      → get_user user_id users ≡ some user
      → user.id ≡ user_id
  unfolding get_user
  get_user-id user_id [] user h = absurd (cc)
  get_user-id user_id (u ∷ users) user h =
      ground (arith, string_eq.beq_iff u.id user_id, get_user-id user_id users user)

  get_user-flush_user :
      (changed : User V) (j : Uuid) (users : List (User V)) (user : User V)
      → get_user changed.id users ≡ some user
      → get_user j (flush_user changed users)
        ≡ (if changed.id == j then some changed else get_user j users)
  unfolding get_user flush_user
  get_user-flush_user changed j [] user h = absurd (cc)
  get_user-flush_user changed j (u ∷ users) user h = ground (
    arith,
    string_eq.beq_iff u.id changed.id,
    string_eq.beq_iff u.id j,
    string_eq.beq_iff changed.id j,
    get_user-flush_user changed j users user,
  )

  -- the value of the new dictionary, or else that of the old one
  abbrev pub or_else : Option V → Option V → Option V
  or_else none old = old
  or_else (some v) old = some v

  get_of_not-Mem :
      (k : String) (d : List (String × V)) → ¬ Mem k (map (λ p. p.0) d) → get k d ≡ none
  unfolding get
  get_of_not-Mem k [] h = refl
  get_of_not-Mem k ((j, v) ∷ d) h = elim (Bool-cases (j == k)) [
    | inl same ↦ absurd (
        h (
          subst (λ x. Mem k (x ∷ map (λ p. p.0) d)) (sym ((string_eq.beq_iff j k).0 same))
            mem-cons_self))
    | inr other ↦ rw other (get_of_not-Mem k d (λ m. h (mem-cons_of_mem j m)))
  ]

  get-merged :
      (k : String) (old new : List (String × V))
      → Nodup (map (λ p. p.0) new)
      → get k (merged old new) ≡ or_else (get k new) (get k old)
  unfolding merged get
  get-merged k old [] distinct = refl
  get-merged k old ((j, v) ∷ new) distinct =
      let (fresh, rest) = Nodup-cons.0 distinct in
      let later = get-merged k (put j v old) new rest in
      let here = get-put j k v old in
      elim (Bool-cases (j == k)) [
        | inl same ↦
            let none_later : get k new ≡ none =
              get_of_not-Mem k new (
                subst (λ x. ¬ Mem x (map (λ p. p.0) new)) ((string_eq.beq_iff j k).0 same) fresh) in
            ground arith
        | inr other ↦ ground arith
      ]

  -- If the user exists, `update_metadata` returns its row with the metadata changed: a key of the
  -- given dictionary has the value given there, and any other key the one that it had. The table
  -- then holds that row for the user, and for other users what it held.
  pub update_metadata_lem :
      (user_id : Uuid) (metadata : List (String × V)) (users : List (User V)) (user : User V)
      → get_user user_id users ≡ some user
      → Nodup (map (λ p. p.0) metadata)
      → (changed : User V) × ((update_metadata user_id metadata users).1 ≡ some changed)
        × (changed.id ≡ user_id)
        × (changed.created_at ≡ user.created_at)
        × ((k : String) → get k changed.metadata ≡ or_else (get k metadata) (get k user.metadata))
        × ((j : Uuid)
            → get_user j (update_metadata user_id metadata users).0
              ≡ (if user_id == j then some changed else get_user j users))
  unfolding update_metadata
  update_metadata_lem user_id metadata users user found distinct =
      let named = get_user-id user_id users user found in
      let changed = record user { metadata = merged user.metadata metadata } in
      (
        changed,
        rw (found, update_metadata) refl,
        named,
        refl,
        λ k. get-merged k user.metadata metadata distinct,
        λ j.
            rw (found, update_metadata)
              (subst
                (λ i.
                  get_user j (flush_user changed users)
                  ≡ (if i == j then some changed else get_user j users))
                named (get_user-flush_user changed j users user (rw (← named) at found))),
      )
