-- ===== src/Controllers/Conditions.antt =====
-- controllers/common.go: updateConditions, which makes the conditions of a resource's status.
mod Again
mod Examples
use Prim.Native.String
use vault_secrets_operator.Base.{
  ℕ, suc, ◌≡◌, ◌≢◌, ◌↔◌, refl, String, Bool, true, false, not, ◌&&◌, ◌||◌, Option, none, some, List,
  [], ◌∷◌, arith, ◌==◌, text_key, eq_iff, nat_eq, if◌then◌else◌, contains,
}

-- metav1.Condition; the time 0 is the zero time.
pub record Condition : Type 0 where
  pub type : String
  pub status : String
  pub observed_generation : ℕ
  pub last_transition_time : ℕ
  pub reason : String
  pub message : String

unfoldable pub condition_key : Condition → String
condition_key c = String.◌++◌ c.type (String.◌++◌ "/" c.reason)

-- The loop over the current conditions, which stops at the first of the type and the reason.
unfoldable pub find_condition : Condition → List Condition → Option Condition
find_condition new [] = none
find_condition new (c ∷ cs) =
    if c.type == new.type && c.reason == new.reason then some c else find_condition new cs

abbrev at_time : ℕ → Condition → Condition
at_time t c = record c { last_transition_time = t }

abbrev with_time : ℕ → Condition → Condition
with_time now c = if nat_eq c.last_transition_time 0 then at_time now c else c

-- A condition that replaces the one found.
unfoldable pub replace_condition : ℕ → Condition → Condition → Condition
replace_condition now found new =
    let changed : Condition = if found.status == new.status then new else at_time now new in
    if nat_eq changed.last_transition_time 0
    then at_time (if nat_eq found.last_transition_time 0 then now else found.last_transition_time)
        changed
    else changed

unfoldable pub update_condition : ℕ → List Condition → Condition → Condition
update_condition now current new = elim (find_condition new current) [
  | none ↦ with_time now new
  | some found ↦ replace_condition now found new
]

-- The loop over the updates; `now i` is what the clock shows when the i-th is handled.
unfoldable pub update_from :
    (ℕ → ℕ) → ℕ → List Condition → List String → List Condition → List Condition
update_from now i current seen [] = []
update_from now i current seen (new ∷ rest) =
    let skip = update_from now (suc i) current seen rest in
    let more = update_from now (suc i) current (condition_key new ∷ seen) rest in
    if contains (condition_key new) seen then skip else update_condition (now i) current new ∷ more

unfoldable pub update_conditions : (ℕ → ℕ) → List Condition → List Condition → List Condition
update_conditions now current updates = update_from now 0 current [] updates

unfoldable pub condition_keys : List Condition → List String
condition_keys [] = []
condition_keys (c ∷ cs) = condition_key c ∷ condition_keys cs

-- No text stands twice.
unfoldable pub are_distinct : List String → Bool
are_distinct [] = true
are_distinct (k ∷ ks) = not (contains k ks) && are_distinct ks

update_condition-key :
    (now : ℕ) (current : List Condition) (new : Condition)
    → condition_key (update_condition now current new) ≡ condition_key new
unfolding update_condition replace_condition condition_key
update_condition-key now current new = ground arith

update_from-keys :
    (now : ℕ → ℕ) (i : ℕ) (current : List Condition) (seen : List String) (updates : List Condition)
    (k : String)
    → contains k (condition_keys (update_from now i current seen updates))
      ≡ (contains k (condition_keys updates) && not (contains k seen))
unfolding update_from condition_keys contains
update_from-keys now i current seen [] k = refl
update_from-keys now i current seen (new ∷ rest) k = ground (
  arith,
  update_condition-key (now i) current new,
  update_from-keys now (suc i) current seen rest k,
  update_from-keys now (suc i) current (condition_key new ∷ seen) rest k,
  eq_iff (condition_key new) k,
)

update_from-are_distinct :
    (now : ℕ → ℕ) (i : ℕ) (current : List Condition) (seen : List String) (updates : List Condition)
    → are_distinct (condition_keys (update_from now i current seen updates)) ≡ true
unfolding update_from condition_keys are_distinct contains
update_from-are_distinct now i current seen [] = refl
update_from-are_distinct now i current seen (new ∷ rest) = ground (
  arith,
  update_condition-key (now i) current new,
  update_from-are_distinct now (suc i) current seen rest,
  update_from-are_distinct now (suc i) current (condition_key new ∷ seen) rest,
  update_from-keys now (suc i) current (condition_key new ∷ seen) rest (condition_key new),
  eq_iff (condition_key new) (condition_key new),
)

-- The conditions of the outcome are those of the updates, by type and reason, each of them once:
-- what is current and not among the updates is dropped.
pub update_conditions-keys :
    (now : ℕ → ℕ) (current updates : List Condition)
    → ((k : String)
        → contains k (condition_keys (update_conditions now current updates))
          ≡ contains k (condition_keys updates))
      × (are_distinct (condition_keys (update_conditions now current updates)) ≡ true)
unfolding update_conditions contains
update_conditions-keys now current updates = (
  λ k. ground (arith, update_from-keys now 0 current [] updates k),
  update_from-are_distinct now 0 current [] updates,
)
