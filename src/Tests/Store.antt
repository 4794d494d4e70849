-- ===== src/Tests/Store.antt =====
-- A Redis server in memory, as far as its laws are used: values with the time at which they expire.
use nexusfeed.Prelude.{
  ℕ, zero, suc, ◌+◌, ◌*◌, ◌<◌, ◌≡◌, refl, ap, sym, ◌∙◌, Bool, true, false, Option, none, some,
  String, if◌then◌else◌, ◌==◌, string_eq, nat_eq, beq_refl, ltb, arith, Bool-cases, inl, inr,
}
use mathlib.Core.Logic.{◌≢◌}
use mathlib.Core.List.{[]}
use nexusfeed.Types.{Time}
use nexusfeed.Redis.{Redis, Laws, CounterLaws, Key, Value, Command, Reply, second}

abbrev pub Code : Type 0
Code = ℕ × String × String × ℕ

abbrev pub code : Key → Code
code (Key.dedupe_event u) = (0, u, "", 0)
code (Key.user_embedding u) = (1, u, "", 0)
code (Key.user_recent u) = (2, u, "", 0)
code (Key.user_experiment u) = (3, u, "", 0)
code (Key.item_score u) = (4, u, "", 0)
code (Key.unique_viewers u) = (5, u, "", 0)
code Key.trending_global = (6, "", "", 0)
code (Key.ratelimit api_key n) = (7, api_key, "", n)
code (Key.experiment_user name u) = (8, name, u, 0)

decode : Code → Key
decode (zero, a, b, n) = Key.dedupe_event a
decode (suc zero, a, b, n) = Key.user_embedding a
decode (suc (suc zero), a, b, n) = Key.user_recent a
decode (suc (suc (suc zero)), a, b, n) = Key.user_experiment a
decode (suc (suc (suc (suc zero))), a, b, n) = Key.item_score a
decode (suc (suc (suc (suc (suc zero)))), a, b, n) = Key.unique_viewers a
decode (suc (suc (suc (suc (suc (suc zero))))), a, b, n) = Key.trending_global
decode (suc (suc (suc (suc (suc (suc (suc zero)))))), a, b, n) = Key.ratelimit a n
decode (suc (suc (suc (suc (suc (suc (suc (suc m))))))), a, b, n) = Key.experiment_user a b

decode-code : (k : Key) → decode (code k) ≡ k
unfolding decode
decode-code (Key.dedupe_event u) = refl
decode-code (Key.user_embedding u) = refl
decode-code (Key.user_recent u) = refl
decode-code (Key.user_experiment u) = refl
decode-code (Key.item_score u) = refl
decode-code (Key.unique_viewers u) = refl
decode-code Key.trending_global = refl
decode-code (Key.ratelimit api_key n) = refl
decode-code (Key.experiment_user name u) = refl

abbrev pub code_beq : Code → Code → Bool
code_beq (i, a, b, n) (j, c, d, m) =
    if i == j then (if a == c then (if b == d then n == m else false) else false) else false

code_beq_refl : (x : Code) → code_beq x x ≡ true
code_beq_refl (i, a, b, n) = rw (beq_refl i, beq_refl a, beq_refl b, beq_refl n) refl

abbrev pub key_beq : Key → Key → Bool
key_beq k j = code_beq (code k) (code j)

key_beq_self : (k : Key) → key_beq k k ≡ true
key_beq_self k = code_beq_refl (code k)

code_beq_ne : (x y : Code) → code_beq x y ≡ true → x ≡ y
code_beq_ne (i, a, b, n) (j, c, d, m) h =
    let p = (nat_eq.beq_iff i j).0 (ground arith) in
    let q = (string_eq.beq_iff a c).0 (ground arith) in
    let r = (string_eq.beq_iff b d).0 (ground arith) in
    let t = (nat_eq.beq_iff n m).0 (ground arith) in λ k. (p k, q k, r k, t k)

key_beq_ne : (k j : Key) → k ≢ j → key_beq k j ≡ false
key_beq_ne k j apart = elim (Bool-cases (code_beq (code k) (code j))) [
  | inl same ↦
      absurd (
        apart
          (sym (decode-code k) ∙ ap decode (code_beq_ne (code k) (code j) same) ∙ decode-code j))
  | inr other ↦ other
]

abbrev pub Store : Type 0
Store = Key → Option (Value ℕ × Option Time)

abbrev pub live_of : Time → Option (Value ℕ × Option Time) → Option (Value ℕ)
live_of t none = none
live_of t (some (v, none)) = some v
live_of t (some (v, some until)) = if ltb t until then some v else none

abbrev pub live_at : Store → Time → Key → Option (Value ℕ)
live_at s t k = live_of t (s k)

abbrev pub insert : Key → Value ℕ → Option Time → Store → Store
insert k v until s j = if key_beq k j then some (v, until) else s j

abbrev pub until_of : Store → Key → Option Time
until_of s k = elim (s k) [ none ↦ none | some e ↦ e.1 ]

abbrev pub answer_get : Store → Option (Value ℕ) → Store × Reply ℕ
answer_get s none = (s, Reply.nil)
answer_get s (some v) = (s, Reply.value v)

abbrev pub answer_set_nx : (set : Store) → Store → Option (Value ℕ) → Store × Reply ℕ
answer_set_nx set s none = (set, Reply.done)
answer_set_nx set s (some _) = (s, Reply.nil)

abbrev pub answer_incr : Key → Store → Option (Value ℕ) → Store × Reply ℕ
answer_incr k s none = (insert k (Value.number 1) none s, Reply.integer 1)
answer_incr k s (some (Value.number n)) =
    (insert k (Value.number (n + 1)) (until_of s k) s, Reply.integer (n + 1))
answer_incr k s (some _) = (s, Reply.nil)

abbrev pub answer_expire : Key → Time → Store → Option (Value ℕ) → Store × Reply ℕ
answer_expire k until s none = (s, Reply.integer 0)
answer_expire k until s (some v) = (insert k v (some until) s, Reply.integer 1)

abbrev pub exec : Time → Store → Command ℕ → Store × Reply ℕ
exec t s (Command.set k v ttl) = (insert k v (some (t + ttl * second)) s, Reply.done)
exec t s (Command.set_nx k v ttl) =
    answer_set_nx (insert k v (some (t + ttl * second)) s) s (live_at s t k)
exec t s (Command.get k) = answer_get s (live_at s t k)
exec t s (Command.incr k) = answer_incr k s (live_at s t k)
exec t s (Command.expire k ttl) = answer_expire k (t + ttl * second) s (live_at s t k)
exec t s _ = (s, Reply.members [])

abbrev pub memory : Redis ℕ
memory = record { Store = Store; exec = exec }

pub live_at-insert :
    (s : Store) (t : Time) (k j : Key) (v : Value ℕ) (until : Option Time)
    → k ≢ j
    → live_at (insert k v until s) t j ≡ live_at s t j
live_at-insert s t k j v until apart = rw (key_beq_ne k j apart) refl

pub live_at-insert_self :
    (s : Store) (t until : Time) (k : Key) (v : Value ℕ)
    → t < until
    → live_at (insert k v (some until) s) t k ≡ some v
live_at-insert_self s t until k v soon = rw (key_beq_self k) (ground arith)

abbrev pub memory-Laws : Laws memory
memory-Laws = record {
  live = live_at;
  get_missing = λ t s k h. ap (answer_get s) h;
  get_found = λ t s k v h. ap (answer_get s) h;
  set_reply = λ t s k v ttl. refl;
  set_live = λ t t' s k v ttl h soon. live_at-insert_self s t' (t + ttl * second) k v soon;
  set_ne = λ t t' s k j v ttl apart. live_at-insert s t' k j v (some (t + ttl * second)) apart;
  set_nx_free = λ t s k v ttl h. ap (answer_set_nx (insert k v (some (t + ttl * second)) s) s) h;
  set_nx_taken = λ t s k v w ttl h. ap (answer_set_nx (insert k v (some (t + ttl * second)) s) s) h;
}

incr_kept :
    (t t' : Time) (s : Store) (k : Key) (n : ℕ)
    → live_at s t' k ≡ some (Value.number n)
    → live_at (insert k (Value.number (n + 1)) (until_of s k) s) t' k ≡ some (Value.number (n + 1))
incr_kept t t' s k n h = rw (key_beq_self k) (by_entry (s k) h)
  where
    by_entry :
        (e : Option (Value ℕ × Option Time))
        → live_of t' e ≡ some (Value.number n)
        → live_of t' (some (Value.number (n + 1), elim e [ none ↦ none | some x ↦ x.1 ]))
          ≡ some (Value.number (n + 1))
    by_entry none h = absurd (cc)
    by_entry (some (v, none)) h = refl
    by_entry (some (v, some until)) h = ground arith

pub memory-CounterLaws : CounterLaws memory memory-Laws
memory-CounterLaws = record {
  incr_new = λ t s k h. ap (λ o. (answer_incr k s o).1) h;
  incr_new_live =
      λ t t' s k h later. ap (λ o. live_at (answer_incr k s o).0 t' k) h ∙ rw (key_beq_self k) refl;
  incr_next = λ t s k n h. ap (λ o. (answer_incr k s o).1) h;
  incr_next_live = λ t t' s k n h later h'.
      ap (λ o. live_at (answer_incr k s o).0 t' k) h ∙ incr_kept t t' s k n h';
  expire_live = λ t t' s k v ttl h later soon.
      ap (λ o. live_at (answer_expire k (t + ttl * second) s o).0 t' k) h
      ∙ live_at-insert_self s t' (t + ttl * second) k v soon;
}
