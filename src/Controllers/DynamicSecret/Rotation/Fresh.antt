-- ===== src/Controllers/DynamicSecret/Rotation/Fresh.antt =====
-- What awaitVaultSecretRotation returns.
use mathlib.Core.Path.{subst}
use vault_secrets_operator.Base.{
  ℕ, suc, ◌≡◌, sym, inl, inr, none, some, true, false, arith, Option-cases, Bool-cases, ◌≢◌, ◌<◌,
  ◌==◌, text_key, eq_iff, nat_eq,
}
use vault_secrets_operator.Base.Result.{ok, Result-cases}
use vault_secrets_operator.Api.DynamicSecret.{DynamicSecret, StaticCreds, ClientMeta}
use vault_secrets_operator.Vault.Responses.{Response}
use vault_secrets_operator.Controllers.Reconciler.{Reconciler, failed, panicked}
use vault_secrets_operator.Controllers.DynamicSecret.Creds.{is_static_creds}
use vault_secrets_operator.Controllers.DynamicSecret.Requests.{do_vault}
use vault_secrets_operator.Controllers.DynamicSecret.Rotation.{
  must_await, in_last_sync_rotation, retry_error, Wait, begin_wait, Operation, meta_data, attempt,
  await_vault_secret_rotation,
}

-- What tells credentials from those that the last sync saw: they follow no schedule, or were not
-- rotated yet, or are of another rotation or schedule, or their time to live is over two seconds and
-- below the last one.
pub data Differs (last m : StaticCreds) : Type 0 where
  unscheduled : m.rotation_schedule ≡ "" → Differs last m
  never_rotated : m.last_vault_rotation ≡ 0 → Differs last m
  rotated : m.last_vault_rotation ≢ last.last_vault_rotation → Differs last m
  rescheduled : m.rotation_schedule ≢ last.rotation_schedule → Differs last m
  fading : 2 < m.ttl → m.ttl < last.ttl → Differs last m

must_await-Differs : (last m : StaticCreds) → must_await last m ≡ false → Differs last m
unfolding must_await in_last_sync_rotation is_static_creds
must_await-Differs last m h =
    elim (Bool-cases (nat_eq m.last_vault_rotation last.last_vault_rotation)) [
      | inr other ↦ rotated (ground arith)
      | inl same ↦ elim (Bool-cases (m.rotation_schedule == "")) [
        | inl empty ↦ unscheduled ((eq_iff m.rotation_schedule "").0 empty)
        | inr set ↦ elim (Bool-cases (last.rotation_schedule == m.rotation_schedule)) [
          | inr other ↦
              rescheduled (ground (arith, eq_iff last.rotation_schedule m.rotation_schedule))
          | inl equal ↦ elim (Bool-cases (nat_eq m.last_vault_rotation 0)) [
            | inl never ↦ never_rotated (ground arith)
            | inr some_time ↦
                absurd (ground (arith, eq_iff last.rotation_schedule m.rotation_schedule))
          ]
        ]
      ]
    ]

retry_error-Differs : (last new : StaticCreds) → retry_error last last new ≡ none → Differs last new
unfolding retry_error
retry_error-Differs last new h =
    elim (Bool-cases (nat_eq new.last_vault_rotation last.last_vault_rotation)) [
      | inr other ↦ rotated (ground arith)
      | inl same ↦ fading (ground arith) (ground arith)
    ]

module _ (r : Reconciler) where
  open r use {factory}

  -- An operation, and up to n more calls of it while it returns an error; a panic is the last.
  unfoldable pub attempts : ℕ → Operation r → Operation r
  attempts ℕ.zero op w = op w
  attempts (suc n) op w =
      let (w', left) = op w in
      let again = attempts n op w' in
      elim left [
        | none ↦ (w', none)
        | some panicked ↦ (w', some panicked)
        | some (failed e) ↦ again
      ]

  -- backoff.Retry calls the operation until it succeeds or its time is over.
  unfoldable pub IsRetry : (Operation r → Operation r) → Type 0
  IsRetry retry = (op : Operation r) (w : Wait r) → (n : ℕ) × (retry op w ≡ attempts n op w)

  -- The credentials are those of the response, and differ from the last sync's.
  unfoldable pub IsFresh : DynamicSecret → StaticCreds → Response → Type 0
  IsFresh o m response = (meta_data r response ≡ ok m) × Differs o.status.static_creds m

  attempt-meta_data :
      (c : ClientMeta) (o : DynamicSecret) (m : StaticCreds) (w : Wait r)
      → (attempt r c o m w).1 ≡ none
      → let w' = (attempt r c o m w).0 in
        (meta_data r w'.response ≡ ok w'.creds)
        × (retry_error o.status.static_creds m w'.creds ≡ none)
  unfolding attempt
  attempt-meta_data c o m w h = elim (Result-cases (do_vault r c o w.vault).1) [
    | inl (x, e) ↦ absurd (ground arith)
    | inr (response, e) ↦ elim (Result-cases (meta_data r response)) [
      | inl (x, d) ↦ absurd (ground arith)
      | inr (new, d) ↦ elim (Option-cases (retry_error o.status.static_creds m new)) [
        | inl n ↦ ground arith
        | inr (x, n) ↦ absurd (ground arith)
      ]
    ]
  ]

  -- While the wait goes on it is for the rotation of the last sync.
  same_rotation :
      (last m new : StaticCreds)
      → must_await last m ≡ true
      → retry_error last m new ≡ none
      → retry_error last last new ≡ none
  unfolding must_await in_last_sync_rotation retry_error
  same_rotation last m new a h = ground arith

  attempts-holds :
      (P : Wait r → Type 0) (n : ℕ) (op : Operation r) (w : Wait r)
      → ((u : Wait r) → (op u).1 ≡ none → P (op u).0)
      → (attempts n op w).1 ≡ none
      → P (attempts n op w).0
  unfolding attempts
  attempts-holds P ℕ.zero op w h g = h w g
  attempts-holds P (suc n) op w h g = elim (Option-cases (op w).1) [
    | inl e ↦ subst P (ground arith) (h w e)
    | inr (failed x, e) ↦ subst P (ground arith) (attempts-holds P n op (op w).0 h (ground arith))
    | inr (panicked, e) ↦ absurd (ground arith)
  ]

  module _ (retry : Operation r → Operation r) (documented : IsRetry retry) where
    awaited-IsFresh :
        (c : ClientMeta) (o : DynamicSecret) (m : StaticCreds) (w : Wait r)
        → must_await o.status.static_creds m ≡ true
        → (retry (attempt r c o m) w).1 ≡ none
        → let w' = (retry (attempt r c o m) w).0 in IsFresh o w'.creds w'.response
    unfolding IsFresh IsRetry
    awaited-IsFresh c o m w a h =
        let (n, e) = documented (attempt r c o m) w in
        let (data_of, stale) =
          attempts-holds
            (λ u.
              (meta_data r u.response ≡ ok u.creds)
              × (retry_error o.status.static_creds m u.creds ≡ none))
            n (attempt r c o m) w (attempt-meta_data c o m) (ground arith) in
        subst (λ x. IsFresh o x.0.creds x.0.response) (sym e)
          (
            data_of,
            retry_error-Differs o.status.static_creds (attempts n (attempt r c o m) w).0.creds (
                same_rotation o.status.static_creds m (attempts n (attempt r c o m) w).0.creds a
                  stale),
          )

    -- The meta-data returned is that of the response returned. For credentials that follow a
    -- schedule and were rotated, it tells of another rotation or schedule than the resource's status,
    -- or of a time to live that is over two seconds and below the one in the status.
    pub await_vault_secret_rotation-IsFresh :
        (c : ClientMeta) (o : DynamicSecret) (last response : Response) (v : factory.Vault)
        (m : StaticCreds)
        → (await_vault_secret_rotation r retry c o last v).1 ≡ ok (m, response)
        → IsFresh o m response
    unfolding await_vault_secret_rotation
    await_vault_secret_rotation-IsFresh c o last response v m h =
        elim (Result-cases (meta_data r last)) [
          | inl (x, e) ↦ absurd (ground arith)
          | inr (first, e) ↦ elim (Bool-cases (must_await o.status.static_creds first)) [
            | inl wait ↦
                let w = begin_wait r last first v in
                elim (Option-cases (retry (attempt r c o first) w).1) [
                  | inl done ↦
                      subst {A = StaticCreds × Response} (λ x. IsFresh o x.0 x.1) (ground arith)
                        (awaited-IsFresh c o first w wait done)
                  | inr (x, left) ↦ absurd (ground arith)
                ]
            | inr early ↦
                unfold IsFresh in
                (ground arith, must_await-Differs o.status.static_creds m (ground arith))
          ]
        ]
