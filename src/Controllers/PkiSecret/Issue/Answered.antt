-- ===== src/Controllers/PkiSecret/Issue/Answered.antt =====
-- How each step ends that renews a certificate on demand.
use vault_secrets_operator.Base.{
  ◌≡◌, refl, sym, ◌∙◌, ap, String, true, none, some, arith, text_key, if◌then◌else◌, Bool-cases,
  Option-cases, inl, inr, ◌∷◌, ◌==◌,
}
use vault_secrets_operator.Base.Map
use vault_secrets_operator.Base.Map.{Map, get-put}
use vault_secrets_operator.Base.Result.{Result, ok, Result-cases}
use vault_secrets_operator.Api.Names.{ObjectKey, object_key}
use vault_secrets_operator.Api.Secret.{Bytes}
use vault_secrets_operator.Api.DynamicSecret.{ClientMeta}
use vault_secrets_operator.Api.PkiSecret.{PkiSecret, to_object, get_issuer_api_data}
use vault_secrets_operator.Common.Errors.{Error}
use vault_secrets_operator.Helpers.Filter.{SecretTransformationOption}
use vault_secrets_operator.Helpers.Sync.{sync_secret as write_destination}
use vault_secrets_operator.Vault.Responses.{
  is_forbidden_error, Value, Response, secret, secret_k8s_data,
}
use vault_secrets_operator.Controllers.BackOff
use vault_secrets_operator.Controllers.Registry
use vault_secrets_operator.Controllers.Reconciler.{Reconciler}
use vault_secrets_operator.Controllers.PkiSecret.{World, event, update_status}
use vault_secrets_operator.Controllers.PkiSecret.Deletion.{revoke_certificate}
use vault_secrets_operator.Controllers.PkiSecret.Issue.Pending.{
  pending, Answer, delivery, Ending, still_due, Going, registry-update_status,
  frame-revoke_certificate, kept, at, report-Ending, finish-Ending,
}
use vault_secrets_operator.Controllers.PkiSecret.Issue.{
  PkiCertResponse, Outcome, with_error, invalid, written, store, with_mac, mac_and_store,
  bad_response, unmarshal_pki_issue_response, format_data, reconcile_response, issue_failed, issue,
  sync, get_path,
}

module _ (r : Reconciler) (from_json : Map String Value → Result Error PkiCertResponse)
    (bytes : String → Bytes) (key : ObjectKey) (o : PkiSecret) (w : World r)
    (found : Map.get key w.objects ≡ some o) (own_key : o.meta.key ≡ key) where
  open r use {client, factory, gvk, transformation_option, build, validator, encode}

  abbrev Ends : Outcome r from_json bytes → Type 0
  Ends out = Ending r from_json bytes key o w out

  abbrev IsDue : World r → Type 0
  IsDue w1 = pending r from_json bytes key w1 ≡ true

  abbrev IsGoing : PkiSecret → World r → Type 0
  IsGoing o1 w1 = Going r from_json bytes key o w o1 w1

  written-Ending :
      (a : Answer r from_json bytes o w) (o1 : PkiSecret) (w1 : World r)
      → IsDue w1
      → w1.objects ≡ w.objects
      → o1.meta ≡ o.meta
      → (delivery r from_json bytes o w a o1.common.secret_mac).1 ≡ none
      → w1.cluster ≡ (delivery r from_json bytes o w a o1.common.secret_mac).0
      → Ends (written r from_json bytes key a.cert o1 w1)
  unfolding written Registry.has
  written-Ending a o1 w1 due objects meta sent cluster =
      let code = written r from_json bytes key a.cert o1 w1 in
      let w2 : World r = record w1 { restarts = key ∷ w1.restarts } in
      let w3 = (revoke_certificate r o1 w2).0 in
      let frame = frame-revoke_certificate r from_json bytes o1 w2 in
      let end = finish-Ending r from_json bytes key o w found own_key a in
      elim (Bool-cases (o1.status.serial_number == "")) [
        | inl first ↦
            at r from_json bytes key o w _ code
              (end "SecretSynced" o1 w1 due objects meta sent cluster) (ground arith)
        | inr again ↦ elim (Bool-cases o1.spec.revoke) [
          | inr stays ↦
              at r from_json bytes key o w _ code
                (end "SecretRotated" o1 w2 due objects meta sent cluster) (ground arith)
          | inl revokes ↦ elim (Option-cases (revoke_certificate r o1 w2).1) [
            | inr (e, h) ↦ kept r from_json bytes key o w w2 code (ground (arith, frame.0)) due
            | inl h ↦
                at r from_json bytes key o w _ code
                  (end "SecretRotated" o1 w3 (ground (arith, frame.0)) (frame.2 ∙ objects) meta sent
                    (frame.1 ∙ cluster))
                  (ground arith)
          ]
        ]
      ]

  -- What SyncSecret is called with for the resource at hand.
  same_delivery :
      (a : Answer r from_json bytes o w) (o1 : PkiSecret) (w1 : World r) (m : Map String Bytes)
      → IsGoing o1 w1
      → m ≡ format_data bytes a.cert o a.option a.contents
      → write_destination client gvk true (to_object o1) m w1.cluster
        ≡ delivery r from_json bytes o w a o1.common.secret_mac
  same_delivery a o1 w1 m g same = ground (arith, same, g.meta, g.common, g.cluster)

  store-Ending :
      (a : Answer r from_json bytes o w) (o1 : PkiSecret) (m : Map String Bytes) (w1 : World r)
      → IsGoing o1 w1
      → m ≡ format_data bytes a.cert o a.option a.contents
      → Ends (store r from_json bytes key a.cert o1 m w1)
  unfolding store
  store-Ending a o1 m w1 g same =
      let code = store r from_json bytes key a.cert o1 m w1 in
      let call = write_destination client gvk true (to_object o1) m w1.cluster in
      let is_call = same_delivery a o1 w1 m g same in
      let w2 : World r = record w1 { cluster = call.0 } in
      elim (Option-cases call.1) [
        | inr (e, h) ↦
            at r from_json bytes key o w _ code
              (report-Ending r from_json bytes key o w found own_key "SecretSyncError" o1 w2 g.due)
              (ground arith)
        | inl h ↦
            at r from_json bytes key o w _ code
              (written-Ending a o1 w2 g.due g.objects g.meta (ap (λ x. x.1) (sym is_call) ∙ h)
                (ap (λ x. x.0) is_call))
              (ground arith)
      ]

  mac_and_store-Ending :
      (a : Answer r from_json bytes o w) (o1 : PkiSecret) (m : Map String Bytes) (w1 : World r)
      → IsGoing o1 w1
      → m ≡ format_data bytes a.cert o a.option a.contents
      → Ends (mac_and_store r from_json bytes key a.cert o1 m w1)
  unfolding mac_and_store
  mac_and_store-Ending a o1 m w1 g same =
      let code = mac_and_store r from_json bytes key a.cert o1 m w1 in
      elim (Result-cases (encode m)) [
        | inl (e, h) ↦
            at r from_json bytes key o w _ code (store-Ending a o1 m w1 g same) (ground arith)
        | inr (message, h) ↦ elim (Result-cases (validator.hmac w1.cluster message)) [
          | inl (e, f) ↦
              at r from_json bytes key o w _ code
                (report-Ending r from_json bytes key o w found own_key "HMACDataError" o1 w1 g.due)
                (ground arith)
          | inr (mac, f) ↦
              let o2 = with_mac r from_json bytes mac o1 in
              let going : IsGoing o2 w1 =
                unfold with_mac in
                (record {
                  due = g.due;
                  cluster = g.cluster;
                  objects = g.objects;
                  meta = g.meta;
                  spec = g.spec;
                  common = ground (arith, g.common);
                }) in
              at r from_json bytes key o w _ code (store-Ending a o2 m w1 going same) (ground arith)
        ]
      ]

  pub bad_response-Ending :
      (o1 : PkiSecret) (w1 : World r) → IsDue w1 → Ends (bad_response r from_json bytes o1 w1)
  unfolding bad_response event
  bad_response-Ending o1 w1 due =
      report-Ending r from_json bytes key o w found own_key "K8sClientError" o1
        (event r "K8sClientError" w1) due

  format_data-common :
      (cert : PkiCertResponse) (o1 : PkiSecret) (opt : SecretTransformationOption)
      (m : Map String Bytes)
      → o1.common ≡ o.common
      → format_data bytes cert o1 opt m ≡ format_data bytes cert o opt m
  unfolding format_data
  format_data-common cert o1 opt m same = ground (arith, same)

  invalid-IsGoing :
      (w1 : World r)
      → IsDue w1
      → w1.cluster ≡ w.cluster
      → w1.objects ≡ w.objects
      → IsGoing (invalid r from_json bytes o) w1
  unfolding invalid
  invalid-IsGoing w1 due cluster objects = record {
    due = due;
    cluster = cluster;
    objects = objects;
    meta = refl;
    spec = refl;
    common = refl;
  }

  reconcile_response-Ending :
      (c : ClientMeta) (opt : SecretTransformationOption) (response : Response) (w1 : World r)
      → (factory.get_client (to_object o) w.vault).1 ≡ ok c
      → (factory.write c
          (get_path o.spec)
          (get_issuer_api_data o.spec)
          (factory.get_client (to_object o) w.vault).0).1
        ≡ ok (some response)
      → transformation_option (to_object o) ≡ ok opt
      → IsDue w1
      → w1.cluster ≡ w.cluster
      → w1.objects ≡ w.objects
      → Ends
          (reconcile_response r from_json bytes key (invalid r from_json bytes o) opt response w1)
  unfolding reconcile_response
  reconcile_response-Ending c opt response w1 got answered option_of due cluster objects =
      let o1 = invalid r from_json bytes o in
      let code = reconcile_response r from_json bytes key o1 opt response w1 in
      let bad = bad_response-Ending o1 w1 due in
      let going = invalid-IsGoing w1 due cluster objects in
      elim (Result-cases (unmarshal_pki_issue_response from_json (secret response))) [
        | inl (e, h) ↦ at r from_json bytes key o w _ code bad (ground arith)
        | inr (cert, h) ↦ elim (Bool-cases (cert.serial_number == "")) [
          | inl nameless ↦ at r from_json bytes key o w _ code bad (ground arith)
          | inr has_name ↦ elim (Result-cases (secret_k8s_data build response opt)) [
            | inl (e, f) ↦ at r from_json bytes key o w _ code bad (ground arith)
            | inr (m, f) ↦
                let a : Answer r from_json bytes o w = record {
                  vault_client = c;
                  got = got;
                  response = response;
                  answered = answered;
                  cert = cert;
                  decoded = h;
                  named = ground (arith, text_key.same_iff cert.serial_number "", has_name);
                  option = opt;
                  option_of = option_of;
                  contents = m;
                  built = f;
                } in
                at r from_json bytes key o w _ code
                  (mac_and_store-Ending a o1 (format_data bytes cert o1 opt m) w1 going
                    (format_data-common cert o1 opt m (unfold invalid in refl)))
                  (ground arith)
          ]
        ]
      ]

  issue_failed-Ending :
      (c : ClientMeta) (o1 : PkiSecret) (e : Error) (w1 : World r)
      → IsDue w1
      → Ends (issue_failed r from_json bytes key c o1 e w1)
  unfolding issue_failed event Registry.add Registry.has
  issue_failed-Ending c o1 e w1 due =
      let code = issue_failed r from_json bytes key c o1 e w1 in
      let w2 : World r = record w1 {
        vault = if is_forbidden_error e then factory.taint c w1.vault else w1.vault;
      } in
      let w3 = event r "K8sClientError" w2 in
      let o2 = with_error r from_json bytes "K8sClientError" o1 in
      let frame = registry-update_status r from_json bytes o2 w3 in
      let w4 = (update_status r o2 w3).0 in
      elim (Result-cases (update_status r o2 w3).1) [
        | inl (e', h) ↦ kept r from_json bytes key o w w1 code (ground (arith, frame.0)) due
        | inr (new, h) ↦
            still_due code.0 code.1
              (ground (arith, get-put key key tt w4.sync_registry, object_key.same_iff key key))
      ]

  issue-Ending :
      (c : ClientMeta) (opt : SecretTransformationOption) (w1 : World r)
      → (factory.get_client (to_object o) w.vault).1 ≡ ok c
      → w1.vault ≡ (factory.get_client (to_object o) w.vault).0
      → transformation_option (to_object o) ≡ ok opt
      → IsDue w1
      → w1.cluster ≡ w.cluster
      → w1.objects ≡ w.objects
      → Ends (issue r from_json bytes key c (invalid r from_json bytes o) opt w1)
  unfolding issue invalid
  issue-Ending c opt w1 got vault option_of due cluster objects =
      let o1 = invalid r from_json bytes o in
      let code = issue r from_json bytes key c o1 opt w1 in
      let call = factory.write c (get_path o.spec) (get_issuer_api_data o.spec) w1.vault in
      let w2 : World r = record w1 {
        vault = call.0;
        back_offs = (BackOff.delete r.fresh r.next key w1.back_offs).0;
      } in
      elim (Result-cases call.1) [
        | inl (e, h) ↦
            at r from_json bytes key o w _ code
              (issue_failed-Ending c o1 e (record w1 { vault = call.0 }) due) (ground arith)
        | inr (answer, h) ↦ elim (Option-cases answer) [
          | inl nil ↦ kept r from_json bytes key o w w1 code (ground arith) due
          | inr (response, is_some) ↦
              at r from_json bytes key o w _ code
                (reconcile_response-Ending c opt response w2 got (ground (arith, vault, h))
                  option_of due cluster objects)
                (ground arith)
        ]
      ]

  pub sync-Ending :
      (opt : SecretTransformationOption) (w1 : World r)
      → w1.vault ≡ w.vault
      → transformation_option (to_object o) ≡ ok opt
      → IsDue w1
      → w1.cluster ≡ w.cluster
      → w1.objects ≡ w.objects
      → Ends (sync r from_json bytes key o opt w1)
  unfolding sync
  sync-Ending opt w1 vault option_of due cluster objects =
      let code = sync r from_json bytes key o opt w1 in
      let call = factory.get_client (to_object o) w1.vault in
      let w2 : World r = record w1 { vault = call.0 } in
      elim (Result-cases call.1) [
        | inl (e, h) ↦ kept r from_json bytes key o w w1 code (ground arith) due
        | inr (c, h) ↦
            at r from_json bytes key o w _ code
              (issue-Ending c opt w2 (ground (arith, vault, h)) (ground (arith, vault)) option_of
                due cluster objects)
              (ground arith)
      ]
