-- ===== src/Lib.antt =====
-- The Vault Secrets Operator copies secrets from HashiCorp Vault into Kubernetes Secrets. A
-- custom resource (VaultStaticSecret, VaultDynamicSecret, VaultPKISecret or HCPVaultSecretsApp)
-- names a path in Vault, a VaultAuth that says how to log in, and a destination Secret. A
-- controller for each kind reads from Vault, makes the data of the Secret with filters and
-- templates, compares a keyed hash with the one of the last sync, and writes the destination.
-- This library models the parts that decide what is written where and who may use what.
--
-- The parts, by file:
--
-- - Base: tests on numbers and text, types with equality (Base.Keys), lists, Go maps as
--   association lists (Base.Map) and Go's pairs of a value and an error (Base.Result).
-- - Api: the objects of the Kubernetes API. Api.Names, Api.Secret, Api.Destination and
--   Api.Syncable are types.NamespacedName, corev1.Secret, the Destination of
--   api/v1beta1/common.go and the syncable resources; Api.AuthConfig and Api.VaultAuth are
--   api/v1beta1/vaultauth_types.go and vaultauthglobal_types.go, with Merge and Validate of each
--   auth method, and Api.AuthConfig.Interface is the interface that the five methods fill, in
--   Api.AuthConfig.Merge and Api.AuthConfig.Cloud.
-- - Kube: Kube.Client is the client of controller-runtime, with its documented behaviour as named
--   hypotheses (IsFaithful); Kube.Memory is a cluster in memory that satisfies them.
-- - Common: common/common.go. Common.Refs is ParseResourceRef, isAllowedNamespace and
--   ValidateObjectKey; Common.Metadata is NewSyncableSecretMetaData; Common.Merge is
--   MergeInVaultAuthGlobal, in the order of its steps: Common.Merge.Global finds the
--   VaultAuthGlobal, Common.Merge.Config switches over the methods, whose fields
--   Common.Merge.Config.Filled writes out, Common.Merge.Fields merges the other fields;
--   Common.VaultAuth is GetVaultAuthNamespaced and the search for VaultAuths and their
--   connections; Common.Errors has the errors of the packages as values.
-- - Helpers: helpers/secrets.go, helpers/template.go and helpers/hmac.go. Helpers.Owner is
--   checkSecretIsOwnedByObj and the owner labels; Helpers.Sync is SyncSecret with the pruning of
--   orphans and the re-creation of a Secret whose type changes; Helpers.Exists is
--   StoreImmutableSecret, DeleteSecret and the test for existence; Helpers.Filter is filterData,
--   Helpers.Templates is gatherTemplates with NewSecretTransformationOption, Helpers.Data is
--   renderTemplates and makeK8sData; Helpers.Hmac is HandleSecretHMAC, HMACDestinationSecret and
--   the keys.
-- - Controllers: controllers/registry.go, controllers/common.go, controllers/eventhandlers.go and
--   the controllers of VaultDynamicSecret, VaultStaticSecret and VaultPKISecret.
--   Controllers.References is resourceReferenceCache, Controllers.Registry is SyncRegistry and
--   Controllers.BackOff is BackOffRegistry, Controllers.Conditions is updateConditions,
--   Controllers.Horizon is the computation of horizons and jitters, and Controllers.Finalizers is
--   RemoveAllFinalizers. Controllers.DynamicSecret is
--   controllers/vaultdynamicsecret_controller.go: the reconciler and the world that it changes,
--   and below it Creds (the meta-data of static credentials), Window (when a resource is
--   reconciled again), Requests (doVault, renewLease), Rotation (awaitVaultSecretRotation),
--   SyncSecret, Deletion, Reconcile and Callback (vaultClientCallback). Controllers.StaticSecret
--   is controllers/vaultstaticsecret_controller.go in the same way, with Reconcile, Watcher
--   (ensureEventWatcher and unWatchEvents) and Events (getEvents). Controllers.PkiSecret is
--   controllers/vaultpkisecret_controller.go, with Window (computePKIRenewalWindow), Tls
--   (convertToK8sTLSSecretData), Deletion, Issue (what Reconcile does for a new certificate) and
--   Reconcile. Controllers.Reconciler has the fields that the reconcilers share, and
--   Controllers.EventHandlers the handlers that queue resources for an event.
-- - Vault: Vault.CacheKey is computeClientCacheKey of vault/cache_key.go, with
--   Vault.CacheKey.Clone for the keys of clones; Vault.Cache is clientCache of vault/cache.go
--   over the LRU cache of a library (Vault.Lru, which Vault.Lru.Slot satisfies); Vault.Responses
--   is vault/responses.go; Vault.Requests is vault/requests.go; Vault.Client is the interface of
--   the client factory and the clients that the reconcilers use.
--
-- They interact as in the code: a controller takes the metadata of a resource (Common.Metadata),
-- finds its VaultAuth (Common.VaultAuth, which calls Common.Merge), gathers its templates and
-- filters (Helpers.Templates), makes the data (Helpers.Data over Helpers.Filter), asks
-- Helpers.Hmac whether it changed, and calls Helpers.Sync, which calls Helpers.Owner and the
-- client. The registries of Controllers say what to queue again when a referenced object changes,
-- and when; Controllers.EventHandlers asks them.
--
-- State is passed explicitly: a cluster goes into each function that calls the API and comes out
-- of it, and a registry is the map that its Go counterpart holds. A call that fails may have
-- changed its own object. Go fixes no order of iteration over a map; here a range takes the
-- entries of the association list in some order, and what is stated of maps speaks of lookups.
-- Errors are values of Common.Errors, without the text of their messages; log lines, events and
-- metrics are left out. Numbers are natural numbers; a duration or a generation is never negative
-- here.
--
-- Two functions run on fuel. The rounding to a float64 (Controllers.Horizon.round_from) halves a
-- number and has that number as its fuel, which is enough. The loop of getEvents
-- (Controllers.StaticSecret.Events.get_events) has a number of rounds, of which six are enough:
-- one for each error up to errorThreshold, and one to find that the context is done. Every other
-- loop of the modelled code goes through a list or a map once. Retries are the business of the
-- backoff library, which is a parameter: the interval of a BackOff, which may be backoff.Stop, is
-- drawn (Controllers.BackOff); for StoreImmutableSecret it calls the operation some number of
-- times until it succeeds or gives up, and for GetVaultAuthWithRetry its last answer is the
-- answer.
--
-- Not modelled: that other clients write to the cluster between two calls of one function, and
-- the locks of the registries, each of whose methods is one atomic step; the client's transport,
-- the scheme, regexp, text/template, JSON, base64, SHA-256 and random numbers, which are
-- parameters; GVK lookup beyond its outcome; the controllers of the other kinds; the Vault
-- client, its factory and its storage, beyond the interface that the reconcilers use; websockets;
-- the predicates on events, the set-up of the controllers, the credential providers, the template
-- functions, the command line, and everything generated.
pub mod Base
pub mod Api
pub mod Kube
pub mod Common
pub mod Helpers
pub mod Controllers
pub mod Vault
