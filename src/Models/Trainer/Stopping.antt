-- ===== src/Models/Trainer/Stopping.antt =====
-- When `fit` stops, against the losses of an unbroken run.
use nexusfeed.Prelude.{
  ℕ, zero, suc, ◌+◌, ◌≤◌, ◌<◌, ◌≡◌, refl, ◌∙◌, ap, Bool, true, false, Option, List, [], ◌∷◌, arith,
  inl, inr, ◌⊎◌, if◌then◌else◌,
}
use nexusfeed.Float.{Float}
use nexusfeed.Models.Trainer.{Torch, Batch, Fit, run_epoch, fit_epoch, fit_loop, unfitted, fit}

module _ {W : Type 0} ⦃f : Float W⦄ where
  -- the least of the losses and of `best`
  abbrev pub lowest : (best : W) → List W → W
  lowest best [] = best
  lowest best (x ∷ xs) = lowest (if f.lt x best then x else best) xs

  -- how many losses in a row, up to the last one, were not below the least one before them, when
  -- `waited` of them are counted already
  abbrev pub since_best : (best : W) → (waited : ℕ) → List W → ℕ
  since_best best waited [] = waited
  since_best best waited (x ∷ xs) =
      since_best (if f.lt x best then x else best) (if f.lt x best then 0 else waited + 1) xs

module _ {S T W : Type 0} ⦃f : Float W⦄ (torch : Torch S T W) (train_loader : List (Batch T))
    (val_loader : Option (List (Batch T))) where
  abbrev epoch_of : S → S × (W × W)
  epoch_of = run_epoch torch train_loader val_loader

  -- the model after `n` epochs, and the losses that these are judged by, with no stop
  abbrev pub trained : ℕ → S → S
  trained zero s = s
  trained (suc n) s = trained n (epoch_of s).0

  abbrev pub losses : ℕ → S → List W
  losses zero s = []
  losses (suc n) s = (epoch_of s).1.1 ∷ losses n (epoch_of s).0

  -- Training from `before` to `after` took `epochs` epochs.
  pub record Trained (rounds patience : ℕ) (before after : Fit S W) (epochs : ℕ) : Type 0 where
    pub bounded : epochs ≤ rounds
    pub model : after.model ≡ trained epochs before.model
    pub best : after.best_val_loss ≡ lowest before.best_val_loss (losses epochs before.model)
    pub waits :
        after.epochs_without_improvement
        ≡ since_best before.best_val_loss before.epochs_without_improvement
            (losses epochs before.model)
    -- it did not go on after an epoch at which it had to stop
    pub patient :
        (k : ℕ)
        → (k ≡ 0)
          ⊎ (epochs ≤ k)
          ⊎ (since_best before.best_val_loss before.epochs_without_improvement
                (losses k before.model)
              < patience)
    -- and it did not stop before it had to
    pub ended : (epochs ≡ rounds) ⊎ (patience ≤ after.epochs_without_improvement)

  module _ (patience : ℕ) (positive : 0 < patience) where
    -- one round of the loop
    record Judged (before after : Fit S W) (stopped : Bool) : Type 0 where
      model : after.model ≡ (epoch_of before.model).0
      best : after.best_val_loss ≡ (
          if f.lt (epoch_of before.model).1.1 before.best_val_loss
          then (epoch_of before.model).1.1
          else before.best_val_loss)
      waits : after.epochs_without_improvement ≡ (
          if f.lt (epoch_of before.model).1.1 before.best_val_loss
          then 0
          else before.epochs_without_improvement + 1)
      decided :
          ((stopped ≡ true) × (patience ≤ after.epochs_without_improvement))
          ⊎ ((stopped ≡ false) × (after.epochs_without_improvement < patience))

    fit_epoch-Judged :
        (epoch : ℕ) (state : Fit S W)
        → Judged state
            (fit_epoch torch train_loader val_loader patience epoch state).0
            (fit_epoch torch train_loader val_loader patience epoch state).1
    unfolding fit_epoch
    fit_epoch-Judged epoch state = ground arith

    still_patient :
        (before after : Fit S W) (stopped : Bool) (n : ℕ)
        → Judged before after stopped
        → after.epochs_without_improvement < patience
        → ((k : ℕ)
            → (k ≡ 0)
              ⊎ (n ≤ k)
              ⊎ (since_best after.best_val_loss after.epochs_without_improvement
                    (losses k after.model)
                  < patience))
        → (k : ℕ)
        → (k ≡ 0)
          ⊎ (suc n ≤ k)
          ⊎ (since_best before.best_val_loss before.epochs_without_improvement
                (losses k before.model)
              < patience)
    still_patient before after stopped n step waiting rest zero = inl refl
    still_patient before after stopped n step waiting rest (suc zero) =
        inr (inr (rw (← step.waits) waiting))
    still_patient before after stopped n step waiting rest (suc (suc k)) = elim (rest (suc k)) [
      | inl e ↦ absurd (omega arith)
      | inr (inl e) ↦ inr (inl (omega arith))
      | inr (inr e) ↦
          let same : since_best after.best_val_loss after.epochs_without_improvement
                (losses (suc k) after.model)
              ≡ since_best before.best_val_loss before.epochs_without_improvement
                  (losses (suc (suc k)) before.model) =
            rw (step.best, step.waits, step.model) refl in
          inr (inr (omega arith))
    ]

    fit_loop-Trained :
        (rounds epoch : ℕ) (state : Fit S W)
        → (epochs : ℕ) × Trained rounds patience state
            (fit_loop torch train_loader val_loader rounds patience epoch state)
            epochs
    unfolding fit_loop
    fit_loop-Trained zero epoch state = (
      0,
      record {
        bounded = omega arith;
        model = refl;
        best = refl;
        waits = refl;
        patient = λ k. inr (inl (omega arith));
        ended = inl refl;
      },
    )
    fit_loop-Trained (suc rounds) epoch state =
        let step = fit_epoch-Judged epoch state in
        let after = (fit_epoch torch train_loader val_loader patience epoch state).0 in
        elim step.decided [
          | inl (stopped, enough) ↦ (
            1,
            rw (stopped, fit_loop)
                (record {
                  bounded = omega arith;
                  model = step.model;
                  best = step.best;
                  waits = step.waits;
                  patient = λ k. ground arith;
                  ended = inr enough;
                }),
          )
          | inr (goes_on, waiting) ↦
              let (n, rest) = fit_loop-Trained rounds (epoch + 1) after in
              (
                suc n,
                rw (goes_on, fit_loop)
                    (record {
                      bounded = let below = rest.bounded in omega arith;
                      model = rest.model ∙ ap (trained n) step.model;
                      best = rest.best ∙ rw (step.best, step.model) refl;
                      waits = rest.waits ∙ rw (step.best, step.waits, step.model) refl;
                      patient = still_patient state after _ n step waiting rest.patient;
                      ended = let ends = rest.ended in ground arith;
                    }),
              )
        ]

  -- With a positive patience, `fit` trains for at most `max_epochs` epochs, and stops after the
  -- first epoch at which `patience` losses in a row were not below the least one before them, or,
  -- without such an epoch, after `max_epochs`. The model is the one that so many epochs give, and
  -- `best_val_loss` is the least of their losses.
  pub fit-Trained :
      (infinity : W) (max_epochs patience : ℕ) (s : S)
      → 0 < patience
      → (epochs : ℕ) × Trained max_epochs patience
          (unfitted infinity s)
          (fit torch train_loader val_loader infinity max_epochs patience s)
          epochs
  unfolding fit
  fit-Trained infinity max_epochs patience s positive =
      fit_loop-Trained patience positive max_epochs 0 (unfitted infinity s)
