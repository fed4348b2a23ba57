-- ===== src/Controllers/PkiSecret/Issue.antt =====
-- controllers/vaultpkisecret_controller.go: what Reconcile does to renew a certificate.
pub mod Pending
pub mod Answered
use vault_secrets_operator.Base.{
  ℕ, ◌/◌, String, true, false, not, Option, none, some, List, [], ◌∷◌, ◌==◌, text_key,
  if◌then◌else◌,
}
use vault_secrets_operator.Base.Map
use vault_secrets_operator.Base.Map.{Map}
use vault_secrets_operator.Base.Result.{Result, ok, err}
use vault_secrets_operator.Api.Names.{ObjectKey}
use vault_secrets_operator.Api.Secret.{Bytes}
use vault_secrets_operator.Api.DynamicSecret.{ClientMeta}
use vault_secrets_operator.Api.PkiSecret.{PkiSecret, PkiSpec, to_object, join, get_issuer_api_data}
use vault_secrets_operator.Common.Errors.{Error, nil_response}
use vault_secrets_operator.Helpers.Filter.{SecretTransformationOption}
use vault_secrets_operator.Helpers.Sync.{sync_secret as write_destination}
use vault_secrets_operator.Vault.Responses.{
  Value, text, Response, ApiSecret, secret, secret_k8s_data, is_forbidden_error,
}
use vault_secrets_operator.Controllers.BackOff
use vault_secrets_operator.Controllers.Registry
use vault_secrets_operator.Controllers.Horizon.{compute_horizon_with_jitter}
use vault_secrets_operator.Controllers.Reconciler.{Reconciler}
use vault_secrets_operator.Controllers.PkiSecret.{World, event, update_status}
use vault_secrets_operator.Controllers.PkiSecret.Window.{compute_pki_renewal_window}
use vault_secrets_operator.Controllers.PkiSecret.Deletion.{revoke_certificate}
use vault_secrets_operator.Controllers.PkiSecret.Tls.{convert_to_k8s_tls_secret_data}

-- What Reconcile returns: the time of the next reconciliation, or none if it is 0, an error, or a
-- panic.
pub data Reply : Type 0 where
  done : Reply
  requeue_after : ℕ → Reply
  returned : Error → Reply
  panic : Reply

-- `RequeueAfter: entry.NextBackOff()`. backoff.Stop is negative, and then nothing is queued.
unfoldable pub next_attempt : Option ℕ → Reply
next_attempt none = done
next_attempt (some interval) = requeue_after interval

-- getPath
unfoldable pub get_path : PkiSpec → String
get_path s =
    if s.issuer_ref == ""
    then join "/" (s.mount ∷ "issue" ∷ s.role ∷ [])
    else join "/" (s.mount ∷ "issuer" ∷ s.issuer_ref ∷ s.role ∷ [])

-- PKICertResponse
pub record PkiCertResponse : Type 0 where
  pub ca_chain : List String
  pub certificate : String
  pub expiration : ℕ
  pub issuing_ca : String
  pub private_key : String
  pub private_key_type : String
  pub serial_number : String

-- `from_json` decodes what was encoded of the data of the secret.
unfoldable pub unmarshal_pki_issue_response :
    (Map String Value → Result Error PkiCertResponse)
    → Option ApiSecret
    → Result Error PkiCertResponse
unmarshal_pki_issue_response from_json none = err nil_response
unmarshal_pki_issue_response from_json (some s) = from_json s.contents

-- The formatting of the certificate chain; `bytes` are the bytes of a text.
unfoldable pub format_data :
    (String → Bytes)
    → PkiCertResponse
    → PkiSecret
    → SecretTransformationOption
    → Map String Bytes
    → Map String Bytes
format_data bytes cert o opt m =
    let m' : Map String Bytes = elim (Map.get "ca_chain" m) [
      | none ↦ m
      | some [] ↦ m
      | some (_ ∷ _) ↦ Map.put "ca_chain" (bytes (join "\n" cert.ca_chain)) m
    ] in
    elim opt.keyed_templates [
      | [] ↦
          if o.common.destination.type == "kubernetes.io/tls"
          then convert_to_k8s_tls_secret_data m'
          else m'
      | _ ∷ _ ↦ m'
    ]

module _ (r : Reconciler) (from_json : Map String Value → Result Error PkiCertResponse)
    (bytes : String → Bytes) where
  open r use {
    client, factory, validator, hash, gvk, transformation_option, build, encode, decode,
    encode_string, parse_duration, fresh, next, now, random,
  }

  abbrev pub Outcome : Type 0
  Outcome = World r × Reply

  -- `RequeueAfter: computeHorizonWithJitter(requeueDurationOnError)`
  abbrev pub on_error : Reply
  on_error = requeue_after (compute_horizon_with_jitter 5_000_000_000 (random 1))

  -- The status with an error, which is not valid.
  unfoldable pub with_error : String → PkiSecret → PkiSecret
  with_error reason o = record o { status = record (o.status) { error = reason } }

  unfoldable pub invalid : PkiSecret → PkiSecret
  invalid o = record o { status = record (o.status) { valid = some false } }

  -- An error that is written to the status.
  unfoldable pub report : String → PkiSecret → World r → Outcome
  report reason o w =
      let (w', left) = update_status r (with_error reason o) w in
      (w', elim left [ err e ↦ returned e | ok _ ↦ on_error ])

  -- The status after a sync that was a success.
  unfoldable pub renewed : PkiCertResponse → PkiSecret → PkiSecret
  renewed cert o = record o {
    status = record (o.status) {
      valid = some true;
      error = "";
      serial_number = cert.serial_number;
      expiration = cert.expiration;
      last_rotation = now / 1_000_000_000;
    };
  }

  -- The end of Reconcile.
  unfoldable pub finish : ObjectKey → PkiCertResponse → String → PkiSecret → World r → Outcome
  finish key cert reason o w =
      let (w', left) = update_status r (renewed cert o) w in
      elim left [
        | err e ↦ (w', returned e)
        | ok o' ↦ (
          event r reason (record w' { sync_registry = (Registry.delete key w'.sync_registry).0 }),
          requeue_after (compute_pki_renewal_window parse_duration now (random 2) o').0,
        )
      ]

  -- The destination was written: restarts, and the end of the old certificate.
  unfoldable pub written : ObjectKey → PkiCertResponse → PkiSecret → World r → Outcome
  written key cert o w =
      let restarted = record w { restarts = key ∷ w.restarts } in
      let (revoked, left) = revoke_certificate r o restarted in
      if o.status.serial_number == ""
      then finish key cert "SecretSynced" o w
      else if o.spec.revoke
      then (elim left [
        | some _ ↦ (revoked, on_error)
        | none ↦ finish key cert "SecretRotated" o revoked
      ])
      else finish key cert "SecretRotated" o restarted

  unfoldable pub store :
      ObjectKey → PkiCertResponse → PkiSecret → Map String Bytes → World r → Outcome
  store key cert o m w =
      let (c, left) = write_destination client gvk true (to_object o) m w.cluster in
      let w' = record w { cluster = c } in
      elim left [ some _ ↦ report "SecretSyncError" o w' | none ↦ written key cert o w' ]

  unfoldable pub with_mac : Bytes → PkiSecret → PkiSecret
  with_mac mac o = record o { common = record (o.common) { secret_mac = encode_string mac } }

  -- Data that cannot be encoded keeps the old MAC.
  unfoldable pub mac_and_store :
      ObjectKey → PkiCertResponse → PkiSecret → Map String Bytes → World r → Outcome
  mac_and_store key cert o m w = elim (encode m) [
    | err _ ↦ store key cert o m w
    | ok message ↦ elim (validator.hmac w.cluster message) [
      | err _ ↦ report "HMACDataError" o w
      | ok mac ↦ store key cert (with_mac mac o) m w
    ]
  ]

  -- An error of the response, which is an event too.
  unfoldable pub bad_response : PkiSecret → World r → Outcome
  bad_response o w = report "K8sClientError" o (event r "K8sClientError" w)

  unfoldable pub reconcile_response :
      ObjectKey → PkiSecret → SecretTransformationOption → Response → World r → Outcome
  reconcile_response key o opt response w =
      elim (unmarshal_pki_issue_response from_json (secret response)) [
        | err _ ↦ bad_response o w
        | ok cert ↦
            if cert.serial_number == ""
            then bad_response o w
            else elim (secret_k8s_data build response opt) [
              | err _ ↦ bad_response o w
              | ok m ↦ mac_and_store key cert o (format_data bytes cert o opt m) w
            ]
      ]

  -- The certificate was not issued; the demand for it stands if the status could be written.
  unfoldable pub issue_failed : ObjectKey → ClientMeta → PkiSecret → Error → World r → Outcome
  issue_failed key c o e w =
      let tainted = record w {
        vault = if is_forbidden_error e then factory.taint c w.vault else w.vault;
      } in
      let (w', left) =
        update_status r (with_error "K8sClientError" o) (event r "K8sClientError" tainted) in
      let (interval, back_offs) = BackOff.next_back_off fresh next (random 3) key w'.back_offs in
      elim left [
        | err e' ↦ (w', returned e')
        | ok _ ↦ (
          record w' { sync_registry = Registry.add key w'.sync_registry; back_offs = back_offs },
          next_attempt interval,
        )
      ]

  unfoldable pub issue :
      ObjectKey → ClientMeta → PkiSecret → SecretTransformationOption → World r → Outcome
  issue key c o opt w =
      let (v, answered) = factory.write c (get_path o.spec) (get_issuer_api_data o.spec) w.vault in
      let w' = record w { vault = v; back_offs = (BackOff.delete fresh next key w.back_offs).0 } in
      elim answered [
        | err e ↦ issue_failed key c o e (record w { vault = v })
        | ok none ↦ (w', panic)
        | ok (some response) ↦ reconcile_response key o opt response w'
      ]

  unfoldable pub sync : ObjectKey → PkiSecret → SecretTransformationOption → World r → Outcome
  sync key o opt w =
      let (v, got) = factory.get_client (to_object o) w.vault in
      let w' = record w { vault = v } in
      elim got [ err _ ↦ (w', on_error) | ok c ↦ issue key c (invalid o) opt w' ]
