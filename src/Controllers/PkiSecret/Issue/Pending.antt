-- ===== src/Controllers/PkiSecret/Issue/Pending.antt =====
-- The demand for a certificate that the SyncRegistry holds, and how it is met.
use mathlib.Core.Path.{subst}
use vault_secrets_operator.Base.{
  ◌≡◌, ◌≢◌, refl, false, Option, ◌/◌, ◌∙◌, String, Bool, true, none, some, arith, text_key, inl,
  inr,
}
use vault_secrets_operator.Base.Map
use vault_secrets_operator.Base.Map.{Map, get-put, get-delete}
use vault_secrets_operator.Base.Result.{Result, ok, Result-cases}
use vault_secrets_operator.Api.Names.{ObjectKey, object_key}
use vault_secrets_operator.Api.Secret.{Bytes}
use vault_secrets_operator.Api.DynamicSecret.{ClientMeta}
use vault_secrets_operator.Api.PkiSecret.{PkiSecret, to_object, get_issuer_api_data}
use vault_secrets_operator.Common.Errors.{Error}
use vault_secrets_operator.Helpers.Filter.{SecretTransformationOption}
use vault_secrets_operator.Helpers.Sync.{sync_secret as write_destination}
use vault_secrets_operator.Vault.Responses.{Value, Response, secret, secret_k8s_data}
use vault_secrets_operator.Controllers.Registry
use vault_secrets_operator.Controllers.Reconciler.{Reconciler}
use vault_secrets_operator.Controllers.PkiSecret.{
  World, event, update_status, status_update, maybe_add_finalizer, update_finalizers,
}
use vault_secrets_operator.Controllers.PkiSecret.Stored.{IsStored, update_status-IsStored}
use vault_secrets_operator.Controllers.PkiSecret.Deletion.{revoke_certificate}
use vault_secrets_operator.Controllers.PkiSecret.Issue.{
  Reply, PkiCertResponse, Outcome, with_error, report, renewed, finish,
  unmarshal_pki_issue_response, format_data, get_path,
}

module _ (r : Reconciler) (from_json : Map String Value → Result Error PkiCertResponse)
    (bytes : String → Bytes) where
  open r use {client, factory, gvk, transformation_option, build, validator, encode, now}

  abbrev pub pending : ObjectKey → World r → Bool
  pending key w = Registry.has key w.sync_registry

  -- The certificate with which Vault answered the request for the resource, and the data that are
  -- made of it.
  pub record Answer (o : PkiSecret) (w : World r) : Type 0 where
    pub vault_client : ClientMeta
    pub got : (factory.get_client (to_object o) w.vault).1 ≡ ok vault_client
    pub response : Response
    pub answered :
        (factory.write vault_client
          (get_path o.spec)
          (get_issuer_api_data o.spec)
          (factory.get_client (to_object o) w.vault).0).1
        ≡ ok (some response)
    pub cert : PkiCertResponse
    pub decoded : unmarshal_pki_issue_response from_json (secret response) ≡ ok cert
    pub named : cert.serial_number ≢ ""
    pub option : SecretTransformationOption
    pub option_of : transformation_option (to_object o) ≡ ok option
    pub contents : Map String Bytes
    pub built : secret_k8s_data build response option ≡ ok contents

  -- The resource with another MAC in its status, as far as SyncSecret looks at it.
  abbrev pub marked : String → PkiSecret → PkiSecret
  marked mac o = record o { common = record (o.common) { secret_mac = mac } }

  -- SyncSecret for the resource and the certificate.
  abbrev pub delivery :
      (o : PkiSecret) (w : World r) → Answer o w → String → client.Cluster × Option Error
  delivery o w a mac =
      write_destination client gvk true (to_object (marked mac o))
        (format_data bytes a.cert o a.option a.contents) w.cluster

  -- The demand is met: the data of Vault's certificate stand at the destination, and the status tells
  -- of that certificate.
  pub record Issued (key : ObjectKey) (o : PkiSecret) (w w' : World r) : Type 0 where
    pub answer : Answer o w
    pub mac : String
    pub delivered : (delivery o w answer mac).1 ≡ none
    pub cluster : w'.cluster ≡ (delivery o w answer mac).0
    pub stored :
        IsStored r key
          (record {
            serial_number = answer.cert.serial_number;
            expiration = answer.cert.expiration;
            last_generation = o.meta.generation;
            last_rotation = now / 1_000_000_000;
            valid = some true;
            error = "";
          })
          mac
          w'
    pub met : pending key w' ≡ false

  -- How a reconciliation of a resource ends that had a demand to meet: it stands, or is met.
  pub data Ending (key : ObjectKey) (o : PkiSecret) (w : World r)
      : Outcome r from_json bytes → Type 0 where
    still_due : (w' : World r) (reply : Reply) → pending key w' ≡ true → Ending key o w (w', reply)
    issued : (w' : World r) (reply : Reply) → Issued key o w w' → Ending key o w (w', reply)

  -- What stands of the resource and of the world until the destination is written.
  pub record Going (key : ObjectKey) (o : PkiSecret) (w : World r) (o1 : PkiSecret) (w1 : World r)
      : Type 0 where
    pub due : pending key w1 ≡ true
    pub cluster : w1.cluster ≡ w.cluster
    pub objects : w1.objects ≡ w.objects
    pub meta : o1.meta ≡ o.meta
    pub spec : o1.spec ≡ o.spec
    pub common : o1.common ≡ (marked o1.common.secret_mac o).common

  pub registry-update_status :
      (o : PkiSecret) (w : World r)
      → ((update_status r o w).0.sync_registry ≡ w.sync_registry)
        × ((update_status r o w).0.cluster ≡ w.cluster)
  unfolding update_status status_update maybe_add_finalizer update_finalizers event
  registry-update_status o w = (ground arith, ground arith)

  pub frame-revoke_certificate :
      (o : PkiSecret) (w : World r)
      → ((revoke_certificate r o w).0.sync_registry ≡ w.sync_registry)
        × ((revoke_certificate r o w).0.cluster ≡ w.cluster)
        × ((revoke_certificate r o w).0.objects ≡ w.objects)
  unfolding revoke_certificate
  frame-revoke_certificate o w = (ground arith, ground arith, ground arith)

  -- A demand that was there, and that the outcome has not touched.
  pub kept :
      (key : ObjectKey) (o : PkiSecret) (w w1 : World r) (out : Outcome r from_json bytes)
      → out.0.sync_registry ≡ w1.sync_registry
      → pending key w1 ≡ true
      → Ending key o w out
  unfolding Registry.has
  kept key o w w1 (w', reply) same due = still_due w' reply (ground arith)

  -- An outcome is as good as one that it is equal to.
  pub at :
      (key : ObjectKey) (o : PkiSecret) (w : World r) (x y : Outcome r from_json bytes)
      → Ending key o w x
      → x ≡ y
      → Ending key o w y
  at key o w x y ending same = subst (Ending key o w) same ending

  module _ (key : ObjectKey) (o : PkiSecret) (w : World r) (found : Map.get key w.objects ≡ some o)
      (own_key : o.meta.key ≡ key) where
    pub report-Ending :
        (reason : String) (o1 : PkiSecret) (w1 : World r)
        → pending key w1 ≡ true
        → Ending key o w (report r from_json bytes reason o1 w1)
    unfolding report
    report-Ending reason o1 w1 due =
        kept key o w w1 _ ((registry-update_status (with_error r from_json bytes reason o1) w1).0)
          due

    renewed_status :
        (cert : PkiCertResponse) (o1 : PkiSecret)
        → o1.meta ≡ o.meta
        → record ((renewed r from_json bytes cert o1).status) {
          last_generation = (renewed r from_json bytes cert o1).meta.generation;
        }
          ≡ record {
            serial_number = cert.serial_number;
            expiration = cert.expiration;
            last_generation = o.meta.generation;
            last_rotation = now / 1_000_000_000;
            valid = some true;
            error = "";
          }
    unfolding renewed
    renewed_status cert o1 same = ground (arith, same)

    pub finish-Ending :
        (a : Answer o w) (reason : String) (o1 : PkiSecret) (w1 : World r)
        → pending key w1 ≡ true
        → w1.objects ≡ w.objects
        → o1.meta ≡ o.meta
        → (delivery o w a o1.common.secret_mac).1 ≡ none
        → w1.cluster ≡ (delivery o w a o1.common.secret_mac).0
        → Ending key o w (finish r from_json bytes key a.cert reason o1 w1)
    unfolding finish event Registry.delete Registry.has
    finish-Ending a reason o1 w1 due objects meta sent cluster =
        let o2 = renewed r from_json bytes a.cert o1 in
        let frame = registry-update_status o2 w1 in
        let w2 = (update_status r o2 w1).0 in
        let code = finish r from_json bytes key a.cert reason o1 w1 in
        elim (Result-cases (update_status r o2 w1).1) [
          | inl (e, h) ↦ kept key o w w1 code (ground (arith, frame.0)) due
          | inr (new, h) ↦
              let s =
                update_status-IsStored r key o2 o new w1 (ground (arith, objects, found))
                  (unfold renewed in ground (arith, meta, own_key)) own_key h in
              issued code.0 code.1 (record {
                answer = a;
                mac = o1.common.secret_mac;
                delivered = sent;
                cluster = ground (arith, frame.1, cluster);
                stored = record {
                  object = s.object;
                  found = ground (arith, s.found);
                  status_of = s.status_of ∙ renewed_status a.cert o1 meta;
                  mac_of = s.mac_of ∙ (unfold renewed in refl);
                };
                met =
                    ground
                      (arith, get-delete key key w2.sync_registry, object_key.same_iff key key);
              })
        ]
