-- ===== src/Controllers/Conditions/Examples.antt =====
-- Conditions at concrete inputs.
use vault_secrets_operator.Base.{ℕ, suc, ◌≡◌, ◌≢◌, refl, [], ◌∷◌, arith, text_key, contains, All}
use vault_secrets_operator.Controllers.Conditions.{
  Condition, condition_key, find_condition, replace_condition, update_condition, update_from,
  update_conditions,
}
use vault_secrets_operator.Controllers.Conditions.Again.{update_conditions_again}

abbrev ready : Condition
ready = record {
  type = "Ready";
  status = "True";
  observed_generation = 2;
  last_transition_time = 0;
  reason = "Available";
  message = "up";
}

abbrev synced : Condition
synced = record ready { type = "Synced"; last_transition_time = 4 }

abbrev failing : Condition
failing = record ready { status = "False"; last_transition_time = 3 }

abbrev clock : ℕ → ℕ
clock i = suc (suc i)

abbrev zero_times : All (λ (c : Condition). c.last_transition_time ≡ 0) (ready ∷ ready ∷ [])
zero_times = (refl, (refl, tt))

runs : (j : ℕ) → clock j ≢ 0
runs j = ground arith

drops_synced :
    update_conditions clock (synced ∷ failing ∷ []) (ready ∷ ready ∷ [])
    ≡ record ready { last_transition_time = 2 } ∷ []
unfolding update_conditions update_from update_condition find_condition replace_condition contains
    condition_key
drops_synced = refl

update_conditions_again_example :
    update_conditions
      (λ i. 9)
      (update_conditions clock (failing ∷ []) (ready ∷ ready ∷ []))
      (ready ∷ ready ∷ [])
    ≡ update_conditions clock (failing ∷ []) (ready ∷ ready ∷ [])
update_conditions_again_example =
    update_conditions_again clock (λ i. 9) (failing ∷ []) (ready ∷ ready ∷ []) zero_times runs
