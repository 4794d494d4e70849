-- ===== src/Experiments/Bandit.antt =====
-- nexusfeed/experiments/bandit.py: `ArmStats` and `EpsilonGreedyBandit`. The random module is an
-- argument: a `Draw` holds what one call of `select_exploration_slot` would draw, the value of
-- `random.random()` and the number from which `random.choice` takes its index.
pub mod Slots
use nexusfeed.Prelude.{
  ℕ, zero, suc, ◌+◌, ◌%◌, min, max, Bool, true, false, not, Option, none, some, List, [], ◌∷◌, ◌++◌,
  String, length, get_elem?, if◌then◌else◌, elem, remove, filter, string_eq, get, put, nat_beq,
}
use nexusfeed.Float.{Float, zero_score, Fraction, int_fraction}
use nexusfeed.Sorting.{max_from}

pub record ArmStats (W : Type 0) : Type 0 where
  pub pulls : ℕ
  pub total_reward : W

pub record Draw (W : Type 0) : Type 0 where
  pub random : W
  pub choice : ℕ

-- `self.arms`
abbrev pub Arms : Type 0 → Type 0
Arms W = List (String × ArmStats W)

-- `random.choice(pool)`
unfoldable pub choice_of : List String → ℕ → Option String
choice_of pool c = get_elem? pool (c % length pool)

-- `result[-1] = slot`, with its guard `if result:`
unfoldable pub set_last {ℓ} : {A : Type ℓ} → List A → A → List A
set_last [] slot = []
set_last (x ∷ []) slot = slot ∷ []
set_last (x ∷ y ∷ xs) slot = x ∷ set_last (y ∷ xs) slot

module _ {W : Type 0} ⦃f : Float W⦄ where
  abbrev pub new_arm : ArmStats W
  new_arm = record { pulls = 0; total_reward = zero_score }

  unfoldable pub mean_reward : ArmStats W → W
  mean_reward s = if nat_beq s.pulls 0 then zero_score else f.div s.total_reward (f.lit s.pulls 1)

  -- `self.arms.setdefault(item_id, ArmStats())`: the arm
  unfoldable pub arm_of : String → Arms W → ArmStats W
  unfolding get
  arm_of item_id arms = elim (get item_id arms) [ none ↦ new_arm | some s ↦ s ]

  unfoldable pub register_arm : String → Arms W → Arms W
  unfolding arm_of put
  register_arm item_id arms = put item_id (arm_of item_id arms) arms

  unfoldable pub record_reward : String → W → Arms W → Arms W
  unfolding arm_of put
  record_reward item_id reward arms =
      let stats = arm_of item_id arms in
      put item_id
        (record { pulls = stats.pulls + 1; total_reward = f.add stats.total_reward reward }) arms

  -- `known`: the arms of the pool that have statistics, with their mean rewards
  unfoldable pub known_arms : Arms W → List String → List (String × W)
  unfolding get mean_reward
  known_arms arms [] = []
  known_arms arms (item_id ∷ pool) =
      let rest = known_arms arms pool in
      elim (get item_id arms) [ none ↦ rest | some s ↦ (item_id, mean_reward s) ∷ rest ]

  -- the exploiting half: the best known arm, or any candidate if none is known
  unfoldable pub exploit : List (String × W) → List String → ℕ → Option String
  unfolding choice_of max_from
  exploit [] pool c = choice_of pool c
  exploit (k ∷ known) pool c = some (max_from (λ e. e.1) k known).0

  unfoldable pub select_exploration_slot :
      (epsilon : W) (arms : Arms W) (draw : Draw W) → List String → Option String
  unfolding choice_of exploit known_arms
  select_exploration_slot epsilon arms draw [] = none
  select_exploration_slot epsilon arms draw (c ∷ cs) =
      let pool = c ∷ cs in
      if f.lt draw.random epsilon
      then choice_of pool draw.choice
      else exploit (known_arms arms pool) pool draw.choice

  -- the `for`: the rounds left, the draw of each round, `result` and `available`
  unfoldable pub inject_loop :
      (epsilon : W) (arms : Arms W) (draws : ℕ → Draw W)
      → (rounds : ℕ) (result available : List String) → List String
  unfolding select_exploration_slot set_last remove
  inject_loop epsilon arms draws zero result available = result
  inject_loop epsilon arms draws (suc rounds) result available =
      elim (select_exploration_slot epsilon arms (draws rounds) available) [
        | none ↦ result
        | some slot ↦
            inject_loop epsilon arms draws rounds (set_last result slot) (remove slot available)
      ]

-- `max(1, int(len(feed_item_ids) * fraction)) if feed_item_ids else 0`
unfoldable pub slot_count : List String → Fraction → ℕ
slot_count [] fraction = 0
slot_count (x ∷ xs) fraction = max 1 (int_fraction (length (x ∷ xs)) fraction)

-- `[c for c in candidate_pool if c not in result]`
abbrev pub available_for : List String → List String → List String
available_for feed_item_ids candidate_pool = filter (λ c. not (elem c feed_item_ids)) candidate_pool

module _ {W : Type 0} ⦃f : Float W⦄ where
  unfoldable pub inject_exploration_slots :
      (epsilon : W) (arms : Arms W) (draws : ℕ → Draw W)
      → (feed_item_ids candidate_pool : List String) (slot_fraction : Fraction) → List String
  unfolding inject_loop slot_count filter elem
  inject_exploration_slots epsilon arms draws feed_item_ids candidate_pool slot_fraction =
      let available = available_for feed_item_ids candidate_pool in
      inject_loop epsilon arms draws
        (min (slot_count feed_item_ids slot_fraction) (length available)) feed_item_ids available
