-- ===== src/Controllers/BackOff/Examples.antt =====
-- Runs of the backoff registry over doubling intervals, and its theorem at a concrete input.
use vault_secrets_operator.Base.{
  ℕ, ◌*◌, ◌+◌, ◌≡◌, refl, List, [], ◌∷◌, Option, none, some, ltb, if◌then◌else◌,
}
use vault_secrets_operator.Base.Map
use vault_secrets_operator.Api.Names.{ObjectKey, object_key}
use vault_secrets_operator.Controllers.BackOff.{
  Outcome, failed, synced, failures, get, delete, next_back_off, history, after,
  next_back_off-history,
}

abbrev web : ObjectKey
web = record { namespace = "apps"; name = "web" }

abbrev db : ObjectKey
db = record { namespace = "apps"; name = "db" }

-- The draw is added to the interval, which doubles up to 30.
abbrev doubling : ℕ → ℕ → Option ℕ × ℕ
doubling draw n = (if ltb 30 n then none else some (n + draw), n * 2)

abbrev outcomes : List Outcome
outcomes = failed web 1 ∷ synced db ∷ failed db 0 ∷ failed web 2 ∷ synced web ∷ failed web 0 ∷ []

third_interval : (next_back_off 5 doubling 3 web (history 5 doubling outcomes)).0 ≡ some 23
unfolding next_back_off history get delete Map.get Map.put Map.delete object_key
third_interval = refl

next_back_off-history_example :
    (next_back_off 5 doubling 3 web (history 5 doubling outcomes)).0
    ≡ (doubling 3 (after 5 doubling (failures web outcomes))).0
next_back_off-history_example = next_back_off-history 5 doubling 3 web outcomes
