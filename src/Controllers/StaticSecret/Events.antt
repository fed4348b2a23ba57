-- ===== src/Controllers/StaticSecret/Events.antt =====
-- controllers/vaultstaticsecret_controller.go: streamStaticSecretEvents and getEvents, the goroutine that
-- watches the events of a resource in Vault.
pub mod Ends
mod Examples
use Prim.Native.String
use Prim.Native.Char.{Char, code}
use vault_secrets_operator.Base.{
  ℕ, zero, suc, ◌+◌, ◌≤◌, ◌<◌, ◌≡◌, String, Bool, true, false, ◌&&◌, ◌||◌, Option, none, some, List,
  [], ◌∷◌, ◌==◌, text_key, nat_eq, leb, if◌then◌else◌, arith, Option-cases, inl, inr,
}
use vault_secrets_operator.Base.Result.{Result, ok, err}
use vault_secrets_operator.Api.DynamicSecret.{ClientMeta}
use vault_secrets_operator.Api.StaticSecret.{StaticSecret}
use vault_secrets_operator.Common.Errors.{Error}
use vault_secrets_operator.Vault.Requests.{join_path}
use vault_secrets_operator.Controllers.Reconciler.{Reconciler}
use vault_secrets_operator.Controllers.StaticSecret.{WatcherMeta, World}

-- eventMsg
pub record EventMsg : Type 0 where
  pub namespace : String
  pub path : String
  pub modified : String

unfoldable pub trim_left : String → String
trim_left String.[] = ""
trim_left (String.◌∷◌ c s) =
    let rest = trim_left s in if nat_eq (code c) 47 then rest else String.◌∷◌ c s

unfoldable pub trim_right : String → String
trim_right String.[] = ""
trim_right (String.◌∷◌ c s) =
    let rest = trim_right s in if nat_eq (code c) 47 && rest == "" then "" else String.◌∷◌ c rest

-- strings.Trim(s, "/")
unfoldable pub trim : String → String
trim s = trim_right (trim_left s)

-- `specPath`: the path of the events of the resource.
unfoldable pub spec_path : StaticSecret → String
spec_path o =
    if o.spec.type == "kv-v2"
    then join_path o.spec.mount (join_path "data" o.spec.path)
    else join_path o.spec.mount o.spec.path

unfoldable pub is_about : StaticSecret → EventMsg → Bool
is_about o m = trim m.namespace == o.common.namespace && m.path == spec_path o

-- One message: whether the resource is queued. `parse_bool` is parseutil.ParseBool.
unfoldable pub handle_message :
    (String → Result Error Bool) → StaticSecret → EventMsg → Result Error Bool
handle_message parse_bool o m = elim (parse_bool m.modified) [
  | err e ↦ err e
  | ok modified ↦ ok (if modified then is_about o m else false)
]

-- How a call of streamStaticSecretEvents ends: the context is done, a connection or a context was
-- closed, or another error.
pub data Session : Type 0 where
  context_done closed broken : Session

-- What the goroutine meets in a round of its loop.
pub record Round : Type 0 where
  pub context_done : Bool
  pub limit_reached : Bool  -- backoff.Stop
  pub session : Session
  pub client : Option ClientMeta  -- ClientFactory.Get
  pub websocket : Bool  -- WebsocketClient
  pub registered : Bool  -- eventWatcherRegistry.Get

-- How the goroutine ends: for good, or with the resource queued.
pub data Ending : Type 0 where
  stopped requeued : Ending

-- errorThreshold
abbrev pub error_threshold : ℕ
error_threshold = 5

-- After an error: the watcher goes on with a new client, or ends.
unfoldable pub renew_client : Round → Option Ending
renew_client t = elim t.client [
  | none ↦ some requeued
  | some c ↦ if t.websocket then (if t.registered then none else some requeued) else some requeued
]

-- What a round leaves behind: the loop ends, or goes on with a number of errors.
pub data Step : Type 0 where
  ends : Ending → Step
  goes_on : ℕ → Step

-- One round. A stream that ends with the context is no error: the next round finds the context done.
unfoldable pub round : ℕ → Round → Step
round error_count t =
    if t.context_done
    then ends stopped
    else if leb 1 error_count && t.limit_reached
    then ends requeued
    else elim t.session [
      | context_done ↦ goes_on error_count
      | closed ↦ ends stopped
      | broken ↦
          if leb error_threshold (suc error_count) then ends requeued else elim (renew_client t) [
            | some ending ↦ ends ending
            | none ↦ goes_on (suc error_count)
          ]
    ]

-- The loop of getEvents, for a number of rounds; `none` means that they were not enough.
unfoldable pub get_events : ℕ → ℕ → (ℕ → Round) → Option Ending
get_events zero error_count rounds = none
get_events (suc n) error_count rounds =
    let rest = λ (count : ℕ). get_events n count (λ i. rounds (suc i)) in
    elim (round error_count (rounds 0)) [ ends ending ↦ some ending | goes_on count ↦ rest count ]
