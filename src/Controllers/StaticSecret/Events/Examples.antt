-- ===== src/Controllers/StaticSecret/Events/Examples.antt =====
-- Events of a resource, and a watcher whose stream breaks again and again.
use vault_secrets_operator.Base.{ℕ, ◌≡◌, refl, true, false, none, some, text_key, arith}
use vault_secrets_operator.Api.DynamicSecret.{ClientMeta}
use vault_secrets_operator.Controllers.StaticSecret.Events.{
  trim_left, trim_right, trim, Round, broken, requeued, renew_client, round, get_events,
}
use vault_secrets_operator.Controllers.StaticSecret.Events.Ends.{
  StaysDone, EndsWithin, get_events_ends,
}

trimmed : trim "/ns1/ns2/" ≡ "ns1/ns2"
unfolding trim trim_left trim_right
trimmed = refl

abbrev vault_client : ClientMeta
vault_client = record { cache_key = "kubernetes-1"; id = "client-1" }

abbrev always_broken : ℕ → Round
always_broken i = record {
  context_done = false;
  limit_reached = false;
  session = broken;
  client = some vault_client;
  websocket = true;
  registered = true;
}

gives_up : get_events 5 0 always_broken ≡ some requeued
unfolding get_events round renew_client
gives_up = refl

four_are_too_few : get_events 4 0 always_broken ≡ none
unfolding get_events round renew_client
four_are_too_few = refl

never_done : StaysDone always_broken
unfolding StaysDone
never_done i ended = absurd (ground arith)

get_events_ends_example : EndsWithin 6 always_broken (get_events 6 0 always_broken)
get_events_ends_example = get_events_ends always_broken never_done
