-- ===== src/Experiments/Metrics/Counts.antt =====
-- What the rows hold after a sequence of recorded events.
use mathlib.Core.Option.{some-injective}
use nexusfeed.Prelude.{
  ℕ, ◌+◌, ◌≡◌, refl, ap, ◌∙◌, inl, inr, Bool, true, false, Option, none, some, List, [], ◌∷◌,
  String, if◌then◌else◌, ◌==◌, string_eq, arith, Bool-cases,
}
use nexusfeed.Prelude.Int.{ℤ}
use nexusfeed.Types.{Uuid, EventType}
use nexusfeed.Experiments.Repository.{ExperimentResult, Delta, apply_delta, is_row, bump, find_row}
use nexusfeed.Experiments.Metrics.{delta_of, record_event}

-- an event as it is recorded: the experiment, the variant, the type and the dwell time
pub record Recorded : Type 0 where
  pub experiment_id : Uuid
  pub variant : String
  pub event_type : EventType
  pub dwell_ms : Option ℤ

unfoldable pub record_all : List Recorded → List ExperimentResult → List ExperimentResult
record_all [] rows = rows
record_all (e ∷ events) rows =
    record_all events (record_event e.experiment_id e.variant e.event_type e.dwell_ms rows)

abbrev pub clicks_of : EventType → ℕ
clicks_of EventType.click = 1
clicks_of _ = 0

abbrev pub shares_of : EventType → ℕ
shares_of EventType.share = 1
shares_of EventType.save = 1
shares_of _ = 0

-- the row after an event that concerns it
abbrev grown_by : EventType → Option ℤ → ExperimentResult → ExperimentResult
grown_by t dwell_ms row = elim (delta_of t dwell_ms) [
  | none ↦ row
  | some delta ↦ apply_delta delta row
]

abbrev GrownBy : EventType → ExperimentResult → ExperimentResult → Type 0
GrownBy t before after =
    (after.clicks ≡ before.clicks + clicks_of t)
    × (after.shares ≡ before.shares + shares_of t)
    × (after.impressions ≡ before.impressions)
    × (after.returns ≡ before.returns)

grown_by-GrownBy :
    (t : EventType) (dwell_ms : Option ℤ) (row : ExperimentResult)
    → GrownBy t row (grown_by t dwell_ms row)
grown_by-GrownBy t dwell_ms row = ground arith

module _ (experiment_id : Uuid) (variant : String) where
  abbrev pub concerns : Recorded → Bool
  concerns e = if e.experiment_id == experiment_id then e.variant == variant else false

  unfoldable pub count_clicks : List Recorded → ℕ
  count_clicks [] = 0
  count_clicks (e ∷ events) =
      let rest = count_clicks events in if concerns e then clicks_of e.event_type + rest else rest

  unfoldable pub count_shares : List Recorded → ℕ
  count_shares [] = 0
  count_shares (e ∷ events) =
      let rest = count_shares events in if concerns e then shares_of e.event_type + rest else rest

  is_row-apply_delta :
      (id : Uuid) (v : String) (delta : Delta) (row : ExperimentResult)
      → is_row id v (apply_delta delta row) ≡ is_row id v row
  is_row-apply_delta id v (Delta.impressions n) row = refl
  is_row-apply_delta id v (Delta.clicks n) row = refl
  is_row-apply_delta id v (Delta.shares n) row = refl
  is_row-apply_delta id v (Delta.dwell_ms_total n) row = refl

  find_row-bump_same :
      (delta : Delta) (rows : List ExperimentResult) (row : ExperimentResult)
      → find_row experiment_id variant rows ≡ some row
      → find_row experiment_id variant (bump experiment_id variant delta rows)
        ≡ some (apply_delta delta row)
  unfolding find_row bump
  find_row-bump_same delta [] row h = absurd (cc)
  find_row-bump_same delta (x ∷ rows) row h = elim (Bool-cases (is_row experiment_id variant x)) [
    | inl here ↦
        let same : x ≡ row = some-injective x row (rw (find_row, here) at h) in
        let kept = is_row-apply_delta experiment_id variant delta x ∙ here in
        rw (here, find_row, kept) (ap (λ z. some (apply_delta delta z)) same)
    | inr there ↦
        rw (there, find_row, there) (find_row-bump_same delta rows row (rw (find_row, there) at h))
  ]

  not_both :
      (id : Uuid) (v : String) (x : ExperimentResult)
      → (if id == experiment_id then v == variant else false) ≡ false
      → is_row id v x ≡ true
      → is_row experiment_id variant x ≡ false
  not_both id v x other here =
      let ids = string_eq.beq_iff x.experiment_id id in
      let variants = string_eq.beq_iff x.variant v in
      elim (Bool-cases (x.experiment_id == id)) [
        | inl p ↦ let q : (x.variant == v) ≡ true = rw p at here in rw (ids.0 p, variants.0 q) other
        | inr p ↦ absurd (ground arith)
      ]

  find_row-bump_other :
      (id : Uuid) (v : String) (delta : Delta) (rows : List ExperimentResult)
      → (if id == experiment_id then v == variant else false) ≡ false
      → find_row experiment_id variant (bump id v delta rows) ≡ find_row experiment_id variant rows
  unfolding find_row bump
  find_row-bump_other id v delta [] other = refl
  find_row-bump_other id v delta (x ∷ rows) other = elim (Bool-cases (is_row id v x)) [
    | inl here ↦
        let missed = not_both id v x other here in
        let kept = is_row-apply_delta experiment_id variant delta x ∙ missed in
        rw (here, find_row, kept, missed) refl
    | inr there ↦
        let rest = find_row-bump_other id v delta rows other in rw (there, find_row, rest) refl
  ]

  -- what is asked of the row of the variant once the events are recorded
  pub record Counted (events : List Recorded) (before after : ExperimentResult) : Type 0 where
    pub clicks : after.clicks ≡ before.clicks + count_clicks events
    pub shares : after.shares ≡ before.shares + count_shares events
    pub impressions : after.impressions ≡ before.impressions
    pub returns : after.returns ≡ before.returns

  abbrev found : List ExperimentResult → Option ExperimentResult
  found = find_row experiment_id variant

  abbrev step : Recorded → List ExperimentResult → List ExperimentResult
  step e rows = record_event e.experiment_id e.variant e.event_type e.dwell_ms rows

  abbrev grown : Recorded → ExperimentResult → ExperimentResult
  grown e row = grown_by e.event_type e.dwell_ms row

  step-other :
      (e : Recorded) (rows : List ExperimentResult)
      → concerns e ≡ false
      → found (step e rows) ≡ found rows
  unfolding record_event
  step-other e rows other = by_delta (delta_of e.event_type e.dwell_ms) refl
    where
      by_delta :
          (o : Option Delta)
          → delta_of e.event_type e.dwell_ms ≡ o
          → found (step e rows) ≡ found rows
      by_delta none h = rw (record_event, h) refl
      by_delta (some delta) h =
          rw (record_event, h) (find_row-bump_other e.experiment_id e.variant delta rows other)

  step-same :
      (e : Recorded) (rows : List ExperimentResult) (row : ExperimentResult)
      → concerns e ≡ true
      → found rows ≡ some row
      → found (step e rows) ≡ some (grown e row)
  unfolding record_event
  step-same e rows row this h = by_delta (delta_of e.event_type e.dwell_ms)
    where
      same_id : e.experiment_id ≡ experiment_id
      same_id = (string_eq.beq_iff e.experiment_id experiment_id).0 (ground arith)

      same_variant : e.variant ≡ variant
      same_variant = (string_eq.beq_iff e.variant variant).0 (ground arith)

      by_delta :
          (o : Option Delta)
          → found (elim o [ none ↦ rows | some delta ↦ bump e.experiment_id e.variant delta rows ])
            ≡ some (elim o [ none ↦ row | some delta ↦ apply_delta delta row ])
      by_delta none = h
      by_delta (some delta) = rw (same_id, same_variant) (find_row-bump_same delta rows row h)

  -- However the events of all experiments and variants are mixed, once they are recorded the row of
  -- a variant has as many more clicks as there were click events of the variant, and as many more
  -- shares as there were share and save events. Its impressions and returns do not change.
  pub record_all-Counted :
      (events : List Recorded) (rows : List ExperimentResult) (before : ExperimentResult)
      → found rows ≡ some before
      → (after : ExperimentResult) × (found (record_all events rows) ≡ some after)
        × Counted events before after
  unfolding record_all count_clicks count_shares
  record_all-Counted [] rows before h = (
    before,
    h,
    record { clicks = omega arith; shares = omega arith; impressions = refl; returns = refl },
  )
  record_all-Counted (e ∷ events) rows before h = elim (Bool-cases (concerns e)) [
    | inl this ↦
        let (after, f, c) =
          record_all-Counted events (step e rows) (grown e before)
            (step-same e rows before this h) in
        let (clicks, shares, impressions, returns) =
          grown_by-GrownBy e.event_type e.dwell_ms before in
        (
          after,
          f,
          record {
            clicks = rw (count_clicks, this) (omega (arith, c.clicks, clicks));
            shares = rw (count_shares, this) (omega (arith, c.shares, shares));
            impressions = c.impressions ∙ impressions;
            returns = c.returns ∙ returns;
          },
        )
    | inr other ↦
        let (after, f, c) =
          record_all-Counted events (step e rows) before (step-other e rows other ∙ h) in
        (
          after,
          f,
          record {
            clicks = rw (count_clicks, other) c.clicks;
            shares = rw (count_shares, other) c.shares;
            impressions = c.impressions;
            returns = c.returns;
          },
        )
  ]
