-- ===== src/Models/Registry/Steps.antt =====
-- `ModelRegistry` as a state machine: every sequence of its operations, whichever calls raise.
use nexusfeed.Prelude.{ℕ, Option, none, some, List, [], ◌∷◌, String, filter}
use nexusfeed.Models.Mlflow.{Mlflow, Version, Stage, Laws}
use nexusfeed.Models.Registry.{
  is_in, newest_of, set_metric_tags, register, promote_to_production, promote_to_canary, restore,
  rollback,
}
use nexusfeed.Models.Registry.Stages.{
  Consistent, Keeps, Keeps-bind, kept, produced-Consistent, staged-Consistent, created-Consistent,
}

module _ (mlflow : Mlflow) {W : Type 0} (show : W → String) where
  infix 40 ◌⟶◌ ◌⟶*◌
  -- one operation of the registry
  pub data ◌⟶◌ : mlflow.Server → mlflow.Server → Type 0 where
    registered :
        (s : mlflow.Server) (model_name artifact_uri : String) (metrics : List (String × W))
        (feature_version : String)
        → s ⟶ (register mlflow show model_name artifact_uri metrics feature_version s).0
    promoted :
        (s : mlflow.Server) (model_name : String) (version : ℕ)
        → s ⟶ (promote_to_production mlflow model_name version s).0
    canaried :
        (s : mlflow.Server) (model_name : String) (version : ℕ) (traffic_pct : W)
        → s ⟶ (promote_to_canary mlflow show model_name version traffic_pct s).0
    rolled_back : (s : mlflow.Server) (model_name : String) → s ⟶ (rollback mlflow model_name s).0

  -- any number of them
  pub data ◌⟶*◌ : mlflow.Server → mlflow.Server → Type 0 where
    here : {s : mlflow.Server} → s ⟶* s
    also : {s t u : mlflow.Server} → s ⟶ t → t ⟶* u → s ⟶* u

  module _ (laws : Laws mlflow) where
    tagged-Keeps :
        (name : String) (v : ℕ) (key value : String)
        → Keeps mlflow laws (mlflow.set_model_version_tag name v key value)
    tagged-Keeps name v key value s = kept mlflow laws s _ (laws.tagged s name v key value)

    set_metric_tags-Keeps :
        (name : String) (v : ℕ) (metrics : List (String × W))
        → Keeps mlflow laws (set_metric_tags mlflow show name v metrics)
    unfolding set_metric_tags
    set_metric_tags-Keeps name v [] = λ s c. c
    set_metric_tags-Keeps name v ((key, value) ∷ metrics) =
        Keeps-bind mlflow laws _ _ (tagged-Keeps name v _ _)
          (λ _. set_metric_tags-Keeps name v metrics)

    register-Keeps :
        (model_name artifact_uri : String) (metrics : List (String × W)) (feature_version : String)
        → Keeps mlflow laws (register mlflow show model_name artifact_uri metrics feature_version)
    unfolding register
    register-Keeps name uri metrics feature_version =
        Keeps-bind mlflow laws _ _ (λ s. kept mlflow laws s _ (laws.created_model s name))
          (λ _. Keeps-bind mlflow laws _ _ (created-Consistent mlflow laws name uri) (λ v.
            Keeps-bind mlflow laws _ _ (set_metric_tags-Keeps name v metrics) (λ _.
              Keeps-bind mlflow laws _ _ (tagged-Keeps name v _ _) (λ _.
                Keeps-bind mlflow laws _ _ (λ s. staged-Consistent mlflow laws s name v)
                  (λ _ s c. c)))))

    promote_to_canary-Keeps :
        (model_name : String) (version : ℕ) (traffic_pct : W)
        → Keeps mlflow laws (promote_to_canary mlflow show model_name version traffic_pct)
    unfolding promote_to_canary
    promote_to_canary-Keeps name v traffic_pct =
        Keeps-bind mlflow laws _ _ (tagged-Keeps name v _ _) (λ _. tagged-Keeps name v _ _)

    promote_to_production-Keeps :
        (model_name : String) (version : ℕ)
        → Keeps mlflow laws (promote_to_production mlflow model_name version)
    unfolding promote_to_production
    promote_to_production-Keeps name v s = produced-Consistent mlflow laws s name v

    restore-Keeps :
        (model_name : String) (o : Option Version) → Keeps mlflow laws (restore mlflow model_name o)
    unfolding restore
    restore-Keeps name none = λ s c. c
    restore-Keeps name (some previous) =
        Keeps-bind mlflow laws _ _ (λ s. produced-Consistent mlflow laws s name previous.version)
          (λ _ s c. c)

    rollback-Keeps : (model_name : String) → Keeps mlflow laws (rollback mlflow model_name)
    unfolding rollback
    rollback-Keeps name =
        Keeps-bind mlflow laws _ _ (λ s. kept mlflow laws s _ (laws.search_keeps s name))
          (λ versions. restore-Keeps name (newest_of (filter (is_in Stage.archived) versions)))

    ⟶-Consistent :
        {s t : mlflow.Server} → s ⟶ t → Consistent mlflow laws s → Consistent mlflow laws t
    ⟶-Consistent (registered s name uri metrics feature_version) =
        register-Keeps name uri metrics feature_version s
    ⟶-Consistent (promoted s name v) = promote_to_production-Keeps name v s
    ⟶-Consistent (canaried s name v traffic_pct) = promote_to_canary-Keeps name v traffic_pct s
    ⟶-Consistent (rolled_back s name) = rollback-Keeps name s

    -- From a registry in which, for every model, no two versions have one number and at most one
    -- version is in production, every sequence of operations leads to such a registry again,
    -- whichever of the calls to MLflow raise on the way.
    pub ⟶*-Consistent :
        {s t : mlflow.Server} → s ⟶* t → Consistent mlflow laws s → Consistent mlflow laws t
    ⟶*-Consistent here c = c
    ⟶*-Consistent (also first rest) c = ⟶*-Consistent rest (⟶-Consistent first c)
