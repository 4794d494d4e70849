-- ===== src/Models/Trainer.antt =====
-- nexusfeed/models/train.py: `Trainer`. torch is not code of the repository: `Torch` holds the calls
-- that the trainer makes on the model and its optimizer, with `S` for their state and a tensor type.
-- Moving the tensors of a batch to the device keeps their values, and is left out.
pub mod Stopping
use nexusfeed.Prelude.{
  ℕ, zero, suc, ◌+◌, Bool, true, false, Option, none, some, List, [], ◌∷◌, String, leb, max,
  if◌then◌else◌,
}
use nexusfeed.Float.{Float, zero_score}

-- one batch of the loader: the batches of users, of clicked items and of negatives
pub record Batch (T : Type 0) : Type 0 where
  pub user_batch : T
  pub item_batch : T
  pub negative_batch : T

pub record Torch (S T W : Type 0) : Type 0 where
  pub train : S → S
  pub eval : S → S
  pub zero_grad : S → S
  pub encode_user : S → T → T
  pub encode_item : S → T → T
  -- the two leading axes made one, and split again as they were in the batch
  pub flatten : T → T
  pub unflatten : (negative_batch : T) → T → T
  pub sampled_softmax_loss : S → T → T → T → T
  pub backward : T → S → S
  pub step : S → S
  pub item : T → W

-- the metrics of the run, newest first, as `mlflow.log_metric` is given them
pub record Metric (W : Type 0) : Type 0 where
  pub key : String
  pub value : W
  pub step : ℕ

pub record History (W : Type 0) : Type 0 where
  pub train_loss : W
  pub val_loss : W
  pub epoch : ℕ

-- the variables of `fit` and the model that it trains
pub record Fit (S W : Type 0) : Type 0 where
  pub model : S
  pub best_val_loss : W
  pub epochs_without_improvement : ℕ
  pub history : Option (History W)
  pub logged : List (Metric W)

-- the variables before the first epoch; `infinity` is `float("inf")`
abbrev pub unfitted : {S W : Type 0} → (infinity : W) → S → Fit S W
unfitted infinity s = record {
  model = s;
  best_val_loss = infinity;
  epochs_without_improvement = 0;
  history = none;
  logged = [];
}

module _ {S T W : Type 0} ⦃f : Float W⦄ (torch : Torch S T W) where
  -- the loss of one batch under the model's present weights
  unfoldable pub batch_loss : S → Batch T → T
  batch_loss s batch =
      let user_emb = torch.encode_user s batch.user_batch in
      let pos_item_emb = torch.encode_item s batch.item_batch in
      let neg_emb_flat = torch.encode_item s (torch.flatten batch.negative_batch) in
      let neg_emb = torch.unflatten batch.negative_batch neg_emb_flat in
      torch.sampled_softmax_loss s user_emb pos_item_emb neg_emb

  unfoldable pub train_batches : S → (total_loss : W) → (n_batches : ℕ) → List (Batch T) → S × W
  train_batches s total_loss n_batches [] = (s, f.div total_loss (f.lit (max n_batches 1) 1))
  train_batches s total_loss n_batches (batch ∷ dataloader) =
      let cleared = torch.zero_grad s in
      let loss = batch_loss cleared batch in
      train_batches (torch.step (torch.backward loss cleared)) (f.add total_loss (torch.item loss))
        (n_batches + 1) dataloader

  unfoldable pub train_epoch : List (Batch T) → S → S × W
  train_epoch dataloader s = train_batches (torch.train s) zero_score 0 dataloader

  unfoldable pub evaluate_batches : S → (total_loss : W) → (n_batches : ℕ) → List (Batch T) → W
  evaluate_batches s total_loss n_batches [] = f.div total_loss (f.lit (max n_batches 1) 1)
  evaluate_batches s total_loss n_batches (batch ∷ dataloader) =
      evaluate_batches s (f.add total_loss (torch.item (batch_loss s batch))) (n_batches + 1)
        dataloader

  unfoldable pub evaluate_loss : List (Batch T) → S → S × W
  evaluate_loss dataloader s =
      (torch.eval s, evaluate_batches (torch.eval s) zero_score 0 dataloader)

  module _ (train_loader : List (Batch T)) (val_loader : Option (List (Batch T))) where
    -- the validation loss, or without a loader the training loss
    unfoldable pub validate : Option (List (Batch T)) → (train_loss : W) → S → S × W
    validate none train_loss s = (s, train_loss)
    validate (some loader) train_loss s = evaluate_loss loader s

    -- one epoch: the model after it, its training loss and the loss that it is judged by
    unfoldable pub run_epoch : S → S × (W × W)
    run_epoch s =
        let (trained, train_loss) = train_epoch train_loader s in
        let (judged, val_loss) = validate val_loader train_loss trained in
        (judged, (train_loss, val_loss))

    abbrev pub log_losses : ℕ → W → W → List (Metric W) → List (Metric W)
    log_losses epoch train_loss val_loss logged =
        let with_train = record { key = "train_loss"; value = train_loss; step = epoch } ∷ logged in
        elim val_loader [
          | none ↦ with_train
          | some loader ↦ record { key = "val_loss"; value = val_loss; step = epoch } ∷ with_train
        ]

    -- one round of the loop of `fit`, and whether it breaks
    unfoldable pub fit_epoch : (patience epoch : ℕ) → Fit S W → Fit S W × Bool
    fit_epoch patience epoch state =
        let (model, (train_loss, val_loss)) = run_epoch state.model in
        let judged = record state {
          model = model;
          logged = log_losses epoch train_loss val_loss state.logged;
        } in
        let history =
          some (record { train_loss = train_loss; val_loss = val_loss; epoch = epoch }) in
        let waited = state.epochs_without_improvement + 1 in
        if f.lt val_loss state.best_val_loss
        then (
          record judged {
            best_val_loss = val_loss;
            epochs_without_improvement = 0;
            history = history;
          },
          false,
        )
        else if leb patience waited
        then (record judged { epochs_without_improvement = waited }, true)
        else (record judged { epochs_without_improvement = waited; history = history }, false)

    -- the loop over `range(max_epochs)` from `epoch` on, with so many rounds left
    unfoldable pub fit_loop : (rounds patience epoch : ℕ) → Fit S W → Fit S W
    fit_loop zero patience epoch state = state
    fit_loop (suc rounds) patience epoch state =
        let (after, stopped) = fit_epoch patience epoch state in
        let rest = fit_loop rounds patience (epoch + 1) after in if stopped then after else rest

    unfoldable pub fit : (infinity : W) → (max_epochs patience : ℕ) → S → Fit S W
    fit infinity max_epochs patience s = fit_loop max_epochs patience 0 (unfitted infinity s)

  -- `OnlineLearner.incremental_update` of nexusfeed/models/online_learning.py; its optimizer is
  -- another one, which `torch` stands for
  unfoldable pub incremental_update : (daily_loader : List (Batch T)) → S → S × W
  incremental_update daily_loader s = train_batches (torch.train s) zero_score 0 daily_loader
