-- ===== src/Controllers/PkiSecret/Reconcile.antt =====
-- controllers/vaultpkisecret_controller.go: Reconcile, from the decision on.
pub mod Pending
mod Examples
use vault_secrets_operator.Base.{
  String, Bool, false, not, ◌&&◌, Option, none, some, ◌==◌, text_key, nat_eq, ltb, if◌then◌else◌,
}
use vault_secrets_operator.Base.Map.{Map}
use vault_secrets_operator.Base.Result.{Result, ok, err}
use vault_secrets_operator.Api.Names.{ObjectKey}
use vault_secrets_operator.Api.Secret.{Bytes, is_not_found}
use vault_secrets_operator.Api.PkiSecret.{PkiSecret, to_object}
use vault_secrets_operator.Common.Errors.{Error, api}
use vault_secrets_operator.Helpers.Exists.{check_secret_exists}
use vault_secrets_operator.Helpers.Filter.{SecretTransformationOption}
use vault_secrets_operator.Helpers.Hmac.{hmac_destination_secret}
use vault_secrets_operator.Helpers.Templates.{get_transformation_ref_obj_keys}
use vault_secrets_operator.Vault.Responses.{Value}
use vault_secrets_operator.Controllers.Registry
use vault_secrets_operator.Controllers.References
use vault_secrets_operator.Controllers.References.{secret_transformation}
use vault_secrets_operator.Controllers.Reconciler.{Reconciler}
use vault_secrets_operator.Controllers.PkiSecret.{World, event, get_object}
use vault_secrets_operator.Controllers.PkiSecret.Window.{compute_pki_renewal_window}
use vault_secrets_operator.Controllers.PkiSecret.Issue.{
  PkiCertResponse, Outcome, on_error, requeue_after, done, returned, bad_response, sync,
}
use vault_secrets_operator.Controllers.PkiSecret.Deletion.{handle_deletion}

-- syncReason; `drifted` says that the destination has another MAC than the status.
unfoldable pub sync_reason : Bool → Bool → Bool → PkiSecret → Option String
sync_reason forced exists drifted o =
    if o.status.serial_number == ""
    then some "InitialSync"
    else if forced
    then some "ForceSync"
    else if ltb 0 o.status.last_rotation && not (nat_eq o.meta.generation o.status.last_generation)
    then some "ResourceUpdated"
    else if o.common.destination.create && not exists
    then some "InexistentDestination"
    else if exists && ltb 0 o.status.last_rotation && drifted
    then some "SecretDataDrift"
    else none

module _ (r : Reconciler) (from_json : Map String Value → Result Error PkiCertResponse)
    (bytes : String → Bytes) where
  open r use {
    client, factory, validator, hash, gvk, transformation_option, build, encode, decode,
    encode_string, parse_duration, fresh, next, now, random,
  }

  unfoldable pub has_drifted : PkiSecret → World r → Bool
  has_drifted o w =
      elim (hmac_destination_secret client hash encode decode validator (to_object o) w.cluster) [
        | err _ ↦ false
        | ok matched ↦ not matched
      ]

  unfoldable pub destination_exists : PkiSecret → World r → Bool
  destination_exists o w = elim (check_secret_exists client (to_object o) w.cluster) [
    | err _ ↦ false
    | ok exists ↦ exists
  ]

  unfoldable pub with_references : ObjectKey → PkiSecret → World r → World r
  with_references key o w = record w {
    references =
        References.set secret_transformation key
          (get_transformation_ref_obj_keys o.common.destination.transformation o.meta.key.namespace)
          w.references;
  }

  unfoldable pub check_and_sync :
      ObjectKey
      → PkiSecret
      → Option String
      → SecretTransformationOption
      → World r
      → Outcome r from_json bytes
  check_and_sync key o (some reason) opt w = sync r from_json bytes key o opt w
  check_and_sync key o none opt w =
      let (horizon, in_window) = compute_pki_renewal_window parse_duration now (random 0) o in
      if in_window then sync r from_json bytes key o opt w else (w, requeue_after horizon)

  unfoldable pub reconcile_live : ObjectKey → PkiSecret → World r → Outcome r from_json bytes
  reconcile_live key o w =
      let exists = destination_exists o w in
      let reason = sync_reason (Registry.has key w.sync_registry) exists (has_drifted o w) o in
      let w' = with_references key o w in
      if not o.common.destination.create && not exists
      then bad_response r from_json bytes o w
      else elim (transformation_option (to_object o)) [
        | err _ ↦ (event r "TransformationError" w', on_error r from_json bytes)
        | ok opt ↦ check_and_sync key o reason opt w'
      ]

  unfoldable pub reconcile : ObjectKey → World r → Outcome r from_json bytes
  reconcile key w = elim (get_object r key w) [
    | err e ↦ (w, if is_not_found e then done else returned (api e))
    | ok o ↦
        let (w', left) = handle_deletion r o w in
        if o.deleting
        then (elim left [ none ↦ (w', done) | some e ↦ (w', returned e) ])
        else reconcile_live key o w
  ]
