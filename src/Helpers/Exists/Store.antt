-- ===== src/Helpers/Exists/Store.antt =====
-- What storing an immutable Secret leaves in the cluster.
use mathlib.Core.Path.{subst}
use vault_secrets_operator.Base.{
  ℕ, suc, ◌≡◌, ◌≢◌, Option, none, some, arith, Option-cases, inl, inr,
}
use vault_secrets_operator.Base.Result.{ok, Result-cases}
use vault_secrets_operator.Api.Names.{ObjectKey}
use vault_secrets_operator.Api.Secret.{Secret, ApiError}
use vault_secrets_operator.Kube.Client.{Client, IsFaithful, SameContent}
use vault_secrets_operator.Helpers.Exists.{create_once, delete_secret, store_immutable_secret}

module _ (k : Client) (stored : ObjectKey → k.Cluster → Option Secret)
    (f : IsFaithful k stored) where
  abbrev pub Operation : Type 0
  Operation = k.Cluster → k.Cluster × Option ApiError

  -- An operation, and up to n more calls of it while it fails.
  unfoldable pub attempts : ℕ → Operation → Operation
  attempts ℕ.zero op c = op c
  attempts (suc n) op c =
      let (d, r) = op c in
      let again = attempts n op d in elim r [ none ↦ (d, none) | some _ ↦ again ]

  -- backoff.Retry calls the operation until it succeeds or the policy stops it, and returns the
  -- outcome of the last call.
  unfoldable pub IsRetry : (Operation → Operation) → Type 0
  IsRetry retry = (op : Operation) (c : k.Cluster) → (n : ℕ) × (retry op c ≡ attempts n op c)

  create_once-frame :
      (dest : Secret) (key : ObjectKey) (c : k.Cluster)
      → dest.key ≢ key
      → stored key (create_once k dest c).0 ≡ stored key c
  unfolding create_once
  create_once-frame dest key c n = ground (arith, f.create_frame dest key c n)

  -- The Secret stands under its key.
  unfoldable pub IsStored : Secret → k.Cluster → Type 0
  IsStored dest c = (t : Secret) × (stored dest.key c ≡ some t) × SameContent dest t

  created-IsStored :
      (dest t : Secret) (c : k.Cluster)
      → (k.create dest c).1 ≡ ok t
      → IsStored dest (k.create dest c).0
  unfolding IsStored
  created-IsStored dest t c e = let (found, same) = f.create_ok dest t c e in (t, found, same)

  create_once-IsStored :
      (dest : Secret) (c : k.Cluster)
      → (create_once k dest c).1 ≡ none
      → IsStored dest (create_once k dest c).0
  unfolding create_once IsStored
  create_once-IsStored dest c h = elim (Result-cases (k.create dest c).1) [
    | inl (x, e) ↦ absurd (ground arith)
    | inr (t, e) ↦ let (found, same) = f.create_ok dest t c e in (t, ground arith, same)
  ]

  attempts-frame :
      (n : ℕ) (op : Operation) (key : ObjectKey) (c : k.Cluster)
      → ((d : k.Cluster) → stored key (op d).0 ≡ stored key d)
      → stored key (attempts n op c).0 ≡ stored key c
  unfolding attempts
  attempts-frame ℕ.zero op key c h = h c
  attempts-frame (suc n) op key c h = ground (arith, h c, attempts-frame n op key (op c).0 h)

  attempts-holds :
      (P : k.Cluster → Type 0) (n : ℕ) (op : Operation) (c : k.Cluster)
      → ((d : k.Cluster) → (op d).1 ≡ none → P (op d).0)
      → (attempts n op c).1 ≡ none
      → P (attempts n op c).0
  unfolding attempts
  attempts-holds P ℕ.zero op c h g = h c g
  attempts-holds P (suc n) op c h g = elim (Option-cases (op c).1) [
    | inl e ↦ subst P (ground arith) (h c e)
    | inr (x, e) ↦ subst P (ground arith) (attempts-holds P n op (op c).0 h (ground arith))
  ]

  delete_secret-frame :
      (key other : ObjectKey) (c : k.Cluster)
      → key ≢ other
      → stored other (delete_secret k key c).0 ≡ stored other c
  unfolding delete_secret
  delete_secret-frame key other c n = ground (arith, f.delete_frame key other c n)

  module _ (retry : Operation → Operation) (is_retry : IsRetry retry) where
    -- Storing an immutable Secret touches no other Secret, whatever calls fail; and if it returns no
    -- error, the Secret stands under its key.
    pub store_immutable_secret-IsStored :
        (dest : Secret) (c : k.Cluster)
        → ((key : ObjectKey)
            → dest.key ≢ key
            → stored key (store_immutable_secret k retry dest c).0 ≡ stored key c)
          × ((store_immutable_secret k retry dest c).1 ≡ none
              → IsStored dest (store_immutable_secret k retry dest c).0)
    unfolding store_immutable_secret IsRetry
    store_immutable_secret-IsStored dest c =
        let d = (k.create dest c).0 in
        let g = (delete_secret k dest.key d).0 in
        let (m, again) = is_retry (create_once k dest) g in
        (
          λ key n. ground (
            arith,
            f.create_frame dest key c n,
            delete_secret-frame dest.key key d n,
            again,
            attempts-frame m (create_once k dest) key g (λ x. create_once-frame dest key x n),
          ),
          λ h. elim (Result-cases (k.create dest c).1) [
            | inl (x, e) ↦ subst (IsStored dest) (ground arith) (
                attempts-holds (IsStored dest) m (create_once k dest) g (create_once-IsStored dest)
                  (ground arith))
            | inr (t, e) ↦ subst (IsStored dest) (ground arith) (created-IsStored dest t c e)
          ],
        )
