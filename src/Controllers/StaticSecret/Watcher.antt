-- ===== src/Controllers/StaticSecret/Watcher.antt =====
-- controllers/vaultstaticsecret_controller.go and controllers/event_watcher_registry.go: the watcher of
-- a resource's events in Vault. A watcher is a goroutine, which is known by its registration here.
use vault_secrets_operator.Base.{
  Bool, ◌&&◌, Option, none, some, ◌==◌, text_key, nat_eq, if◌then◌else◌,
}
use vault_secrets_operator.Base.Map
use vault_secrets_operator.Api.Names.{ObjectKey, object_key}
use vault_secrets_operator.Api.DynamicSecret.{ClientMeta}
use vault_secrets_operator.Api.StaticSecret.{StaticSecret}
use vault_secrets_operator.Common.Errors.{Error}
use vault_secrets_operator.Controllers.Reconciler.{Reconciler}
use vault_secrets_operator.Controllers.StaticSecret.{WatcherMeta, World}

module _ (r : Reconciler) where
  -- Register
  unfoldable pub register : ObjectKey → WatcherMeta → World r → World r
  register key meta w = record w { watchers = Map.put key meta w.watchers }

  -- Delete
  unfoldable pub unregister : ObjectKey → World r → World r
  unregister key w = record w { watchers = Map.delete key w.watchers }

  -- Whether the watcher that runs is the one that the resource needs.
  unfoldable pub is_current : StaticSecret → ClientMeta → WatcherMeta → Bool
  is_current o c meta = nat_eq meta.last_generation o.meta.generation && meta.last_client_id == c.id

  -- What the outside does: whether a watcher that is cancelled stops within two minutes, and takes
  -- itself out of the registry, and whether there is a websocket client.
  pub record Outside : Type 0 where
    pub stops : Bool
    pub websocket_client : ClientMeta → Option Error

  -- The watcher is cancelled, and waited for.
  unfoldable pub cancel : Outside → ObjectKey → World r → World r
  cancel out key w = if out.stops then unregister key w else w

  -- A new watcher.
  unfoldable pub start_watcher :
      Outside → StaticSecret → ClientMeta → World r → World r × Option Error
  start_watcher out o c w = elim (out.websocket_client c) [
    | some e ↦ (w, some e)
    | none ↦ (
      register o.meta.key (record { last_generation = o.meta.generation; last_client_id = c.id }) w,
      none,
    )
  ]

  unfoldable pub ensure_event_watcher :
      Outside → StaticSecret → ClientMeta → World r → World r × Option Error
  ensure_event_watcher out o c w = elim (Map.get o.meta.key w.watchers) [
    | none ↦ start_watcher out o c w
    | some meta ↦
        if is_current o c meta then (w, none) else start_watcher out o c (cancel out o.meta.key w)
  ]

  unfoldable pub un_watch_events : StaticSecret → World r → World r
  un_watch_events o w = elim (Map.get o.meta.key w.watchers) [
    | none ↦ w
    | some _ ↦ unregister o.meta.key w
  ]
