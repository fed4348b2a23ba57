-- ===== src/Controllers/PkiSecret/Reconcile/Pending.antt =====
-- The demand for a certificate that the SyncRegistry holds.
use vault_secrets_operator.Base.{
  ◌≡◌, refl, String, true, false, not, ◌&&◌, Option, some, arith, Option-cases, text_key,
  Bool-cases, inl, inr,
}
use vault_secrets_operator.Base.Map
use vault_secrets_operator.Base.Map.{Map}
use vault_secrets_operator.Base.Result.{Result, ok, Result-cases}
use vault_secrets_operator.Api.Names.{ObjectKey, object_key}
use vault_secrets_operator.Api.Secret.{Bytes}
use vault_secrets_operator.Api.PkiSecret.{PkiSecret, to_object}
use vault_secrets_operator.Common.Errors.{Error}
use vault_secrets_operator.Helpers.Filter.{SecretTransformationOption}
use vault_secrets_operator.Vault.Responses.{Value}
use vault_secrets_operator.Controllers.Reconciler.{Reconciler}
use vault_secrets_operator.Controllers.PkiSecret.{World, event, get_object}
use vault_secrets_operator.Controllers.PkiSecret.Window.{compute_pki_renewal_window}
use vault_secrets_operator.Controllers.PkiSecret.Issue.{PkiCertResponse}
use vault_secrets_operator.Controllers.PkiSecret.Issue.Pending.{pending, Ending, at, kept}
use vault_secrets_operator.Controllers.PkiSecret.Issue.Answered.{sync-Ending, bad_response-Ending}
use vault_secrets_operator.Controllers.PkiSecret.Reconcile.{
  sync_reason, has_drifted, check_and_sync, reconcile_live, reconcile, with_references,
  destination_exists,
}

module _ (r : Reconciler) (from_json : Map String Value → Result Error PkiCertResponse)
    (bytes : String → Bytes) where
  open r use {transformation_option}

  get_object-found :
      (key : ObjectKey) (o : PkiSecret) (w : World r)
      → get_object r key w ≡ ok o
      → Map.get key w.objects ≡ some o
  unfolding get_object
  get_object-found key o w h = elim (Option-cases (Map.get key w.objects)) [
    | inl missing ↦ absurd (ground arith)
    | inr (o', there) ↦ ground arith
  ]

  module _ (key : ObjectKey) (o : PkiSecret) (w : World r) (found : Map.get key w.objects ≡ some o)
      (own_key : o.meta.key ≡ key) (due : pending r from_json bytes key w ≡ true) where
    check_and_sync-Ending :
        (reason : Option String) (opt : SecretTransformationOption)
        → transformation_option (to_object o) ≡ ok opt
        → Ending r from_json bytes key o w (
            check_and_sync r from_json bytes key o reason opt
              (with_references r from_json bytes key o w))
    unfolding check_and_sync with_references
    check_and_sync-Ending reason opt option_of =
        let w1 = with_references r from_json bytes key o w in
        let code = check_and_sync r from_json bytes key o reason opt w1 in
        let synced =
          sync-Ending r from_json bytes key o w found own_key opt w1 refl option_of due refl refl in
        elim (Option-cases reason) [
          | inr (why, h) ↦ at r from_json bytes key o w _ code synced (ground arith)
          | inl h ↦
              elim (Bool-cases
                (compute_pki_renewal_window r.parse_duration r.now (r.random 0) o).1) [
                  | inl due_now ↦ at r from_json bytes key o w _ code synced (ground arith)
                  | inr later ↦ kept r from_json bytes key o w w code (ground arith) due
                ]
        ]

    reconcile_live-Ending :
        Ending r from_json bytes key o w (reconcile_live r from_json bytes key o w)
    unfolding reconcile_live with_references event
    reconcile_live-Ending =
        let code = reconcile_live r from_json bytes key o w in
        let exists = destination_exists r from_json bytes o w in
        let reason =
          sync_reason (pending r from_json bytes key w) exists (has_drifted r from_json bytes o w)
            o in
        elim (Bool-cases (not o.common.destination.create && not exists)) [
          | inl missing ↦
              at r from_json bytes key o w _ code
                (bad_response-Ending r from_json bytes key o w found own_key o w due) (ground arith)
          | inr there ↦ elim (Result-cases (transformation_option (to_object o))) [
            | inl (e, h) ↦ kept r from_json bytes key o w w code (ground arith) due
            | inr (opt, h) ↦
                at r from_json bytes key o w _ code (check_and_sync-Ending reason opt h)
                  (ground arith)
          ]
        ]

  -- A reconciliation of a VaultPKISecret that is not being deleted, and for which the SyncRegistry
  -- holds a demand, either leaves the demand there, whatever fails; or the demand is gone, and then
  -- Vault has answered the request that is made for this resource with a certificate that has a
  -- serial number, SyncSecret has returned no error when it was called for this resource with the
  -- data of that answer and left the Secrets as they stand, and the resource is stored with a status
  -- that is valid, has no error, and has the serial number and the expiration of that certificate
  -- and the generation that was reconciled.
  pub reconcile-Ending :
      (key : ObjectKey) (o : PkiSecret) (w : World r)
      → get_object r key w ≡ ok o
      → o.meta.key ≡ key
      → o.deleting ≡ false
      → pending r from_json bytes key w ≡ true
      → Ending r from_json bytes key o w (reconcile r from_json bytes key w)
  unfolding reconcile
  reconcile-Ending key o w found own_key alive due =
      at r from_json bytes key o w _ (reconcile r from_json bytes key w)
        (reconcile_live-Ending key o w (get_object-found key o w found) own_key due)
        (ground (arith, found, alive))
