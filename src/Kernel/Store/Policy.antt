-- ===== src/Kernel/Store/Policy.antt =====
-- The frozen store policy.
use srcport_substrate.Base.{
  ℕ, ◌<◌, ◌≡◌, refl, Option, none, some, arith, if◌then◌else◌, eqb, zero, suc,
}
use srcport_substrate.Base.Int.{ℤ, pos, negsuc}
use srcport_substrate.Proto.{ArtifactStorePolicy, BlobIngestMode, durability_of}
use srcport_substrate.Kernel.Error.{Result, ok, ◌>>=◌}
use srcport_substrate.Kernel.Store.{ingest_mode, normalize_store_policy, max_inline_artifact_bytes}

abbrev pub IsNormal : ArtifactStorePolicy → Result ArtifactStorePolicy → Type 0
IsNormal policy (ok q) =
    (q.ingest_mode ≡ pos 1)
    × (0 < q.max_inline_bytes)
    × (q.max_blob_bytes ≡ policy.max_blob_bytes)
    × (normalize_store_policy q ≡ ok q)
IsNormal policy _ = ⊥

ingest_mode_lem :
    (policy : ArtifactStorePolicy) (o : Option BlobIngestMode)
    → ingest_mode policy o ≡ ok (record policy { ingest_mode = pos 1 })
unfolding ingest_mode
ingest_mode_lem policy none = refl
ingest_mode_lem policy (some BlobIngestMode.unspecified) = refl
ingest_mode_lem policy (some BlobIngestMode.copy_verify) = refl

normalized_by : (inline blob : ℕ) (m d : ℤ) → ArtifactStorePolicy
normalized_by inline blob m d = record {
  max_inline_bytes = inline;
  max_blob_bytes = blob;
  ingest_mode = m;
  durability = d;
}

inline_pos : (n : ℕ) → 0 < (if eqb n 0 then max_inline_artifact_bytes else n)
inline_pos n = ground arith

by_durability :
    (inline blob : ℕ) (m d : ℤ)
    → IsNormal
        (normalized_by inline blob m d)
        (normalize_store_policy (normalized_by inline blob m d))
unfolding normalize_store_policy normalized_by durability_of ◌>>=◌
by_durability n b m (pos zero) = simp ingest_mode_lem (refl, inline_pos n, refl, ground arith)
by_durability n b m (pos (suc zero)) = simp ingest_mode_lem (refl, inline_pos n, refl, ground arith)
by_durability n b m (pos (suc (suc zero))) =
    simp ingest_mode_lem (refl, inline_pos n, refl, ground arith)
by_durability n b m (pos (suc (suc (suc k)))) =
    simp ingest_mode_lem (refl, inline_pos n, refl, ground arith)
by_durability n b m (negsuc k) = simp ingest_mode_lem (refl, inline_pos n, refl, ground arith)

-- Whatever numbers a policy holds, also an ingest mode that the enum does not have,
-- `normalize_store_policy` accepts it: the mode becomes COPY_VERIFY, the inline limit is positive,
-- the blob limit stays, and the result is normal: normalizing it again changes nothing.
pub normalize_store_policy_total :
    (policy : ArtifactStorePolicy) → IsNormal policy (normalize_store_policy policy)
unfolding normalized_by
normalize_store_policy_total policy =
    by_durability policy.max_inline_bytes policy.max_blob_bytes policy.ingest_mode policy.durability
