-- ===== src/Kernel/Stores.antt =====
-- Artifacts, blobs, derivations and cached replies under any calls.
mod Stable
pub mod Grows
use srcport_substrate.Base.{
  ◌+◌, ◌≡◌, refl, sym, ap, ◌∙◌, Bool, true, false, Option, none, some, List, [], ◌∷◌, ◌++◌, Str,
  ◌==◌, ◌&&◌, eq_iff, length, if◌then◌else◌, Bool-cases, inl, inr, ◌⊎◌, arith, append_assoc,
  append-nil,
}
use srcport_substrate.Base.Map
use srcport_substrate.Base.Map.{Map, lookup-insert, contains_key-none}
use srcport_substrate.Proto.{Artifact, ArtifactStorePolicy, PutBlobRequest, Derivation}
use srcport_substrate.Kernel.Platform.{Platform}
use srcport_substrate.Kernel.Digest.{blob_id, artifact_id_of, artifact_canonical_bytes}
use srcport_substrate.Kernel.State.{
  State, default_state, BlobSlot, BlobEntry, IdempotentResult, blob_lookup,
}
use srcport_substrate.Kernel.Api.{Call, serve}
use srcport_substrate.Kernel.Traverse.{serve-R}
use Grows.{IsAddressed, IsIntact, Grows-serve}

module _ ⦃p : Platform⦄ where
  -- A stored artifact stays as it is, under its id, whatever is called afterwards.
  pub artifacts-serve :
      (policy : ArtifactStorePolicy) (cs : List Call) (s : State) (id : Str) (a : Artifact)
      → Map.lookup id s.artifacts ≡ some a
      → Map.lookup id (serve policy cs s).artifacts ≡ some a
  artifacts-serve policy cs s = (Grows-serve policy cs s).artifacts_kept

  IsAddressed-serve :
      (policy : ArtifactStorePolicy) (cs : List Call) (s : State)
      → IsAddressed s.artifacts
      → IsAddressed (serve policy cs s).artifacts
  IsAddressed-serve policy cs s = (Grows-serve policy cs s).addressed_kept

  no_artifacts : IsAddressed []
  unfolding Map.lookup
  no_artifacts = record { at_id = λ id a h. cc }

  -- Whatever calls a new kernel serves, an artifact that it then holds under an id carries that id,
  -- and the id is the address of the artifact's traits.
  pub stored_artifact_id :
      (policy : ArtifactStorePolicy) (cs : List Call) (id : Str) (a : Artifact)
      → Map.lookup id (serve policy cs default_state).artifacts ≡ some a
      → (a.id ≡ id) × (artifact_id_of a ≡ id)
  stored_artifact_id policy cs = (IsAddressed-serve policy cs default_state no_artifacts).at_id

  -- A stored blob stays as it is, under its namespace and digest, whatever is called afterwards.
  pub blobs-serve :
      (policy : ArtifactStorePolicy) (cs : List Call) (s : State) (namespace digest : Str)
      (b : BlobSlot)
      → blob_lookup namespace digest s.blobs ≡ some b
      → blob_lookup namespace digest (serve policy cs s).blobs ≡ some b
  blobs-serve policy cs s = (Grows-serve policy cs s).blobs_kept

  IsIntact-serve :
      (policy : ArtifactStorePolicy) (cs : List Call) (s : State)
      → IsIntact s.blobs
      → IsIntact (serve policy cs s).blobs
  IsIntact-serve policy cs s = (Grows-serve policy cs s).intact_kept

  -- The blobs of a kernel that has served any calls from the start.
  pub IsIntact-reachable :
      (policy : ArtifactStorePolicy) (cs : List Call)
      → IsIntact (serve policy cs default_state).blobs
  unfolding blob_lookup
  IsIntact-reachable policy cs =
      IsIntact-serve policy cs default_state (record { at_key = λ n d b h. cc })

  -- The recorded derivations stay, in their order, under any calls: calls only add behind them.
  pub derivations-serve :
      (policy : ArtifactStorePolicy) (cs : List Call) (s : State)
      → (new : List Derivation) × ((serve policy cs s).derivations ≡ s.derivations ++ new)
  derivations-serve policy cs s = (Grows-serve policy cs s).derivations_kept

  -- A reply that is cached under an idempotency key stays as it is, whatever is called afterwards.
  pub replies-serve :
      (policy : ArtifactStorePolicy) (cs : List Call) (s : State) (k : Str) (r : IdempotentResult)
      → Map.lookup k s.idempotency ≡ some r
      → Map.lookup k (serve policy cs s).idempotency ≡ some r
  replies-serve policy cs s = (Grows-serve policy cs s).replies_kept
