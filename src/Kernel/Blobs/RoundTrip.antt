-- ===== src/Kernel/Blobs/RoundTrip.antt =====
-- Reading blobs back.
use srcport_substrate.Base.{
  ◌≡◌, ◌⊎◌, inl, inr, none, List, ◌++◌, Str, lit, eq_iff, length, arith, Option-cases,
}
use srcport_substrate.Proto.{ArtifactStorePolicy, GetBlobRequest}
use srcport_substrate.Kernel.Platform.{Platform}
use srcport_substrate.Kernel.Error.{ok, err, not_found}
use srcport_substrate.Kernel.Digest.{blob_id}
use srcport_substrate.Kernel.State.{State, default_state, BlobSlot, blob_lookup, ◌>>=◌, fail, pure}
use srcport_substrate.Kernel.Stores.{IsIntact-reachable}
use srcport_substrate.Kernel.Stores.Grows.{IsIntact}
use srcport_substrate.Kernel.Api.{Call, serve}
use srcport_substrate.Kernel.Blobs.{check_stored, get_blob}

module _ ⦃p : Platform⦄ where
  check_stored_ok :
      (slot : BlobSlot) (s : State) (digest namespace : Str)
      → (blob_id slot.payload ≡ digest)
        × (slot.ref.digest ≡ digest)
        × (slot.ref.namespace ≡ namespace)
        × (slot.ref.byte_count ≡ length slot.payload)
      → check_stored slot s ≡ (
        ok (record {
          digest = digest;
          byte_count = length slot.payload;
          namespace = namespace;
          payload = slot.payload;
        }),
        s,
      )
  unfolding check_stored fail pure
  check_stored_ok slot s d n k = ground (arith, eq_iff (blob_id slot.payload) slot.ref.digest)

  get_blob-IsIntact :
      (s : State) (req : GetBlobRequest)
      → IsIntact s.blobs
      → ((blob_lookup req.namespace req.digest s.blobs ≡ none)
          × (get_blob req s ≡ (err (not_found (lit "blob " ++ req.digest)), s)))
        ⊎ ((slot : BlobSlot) × (blob_id slot.payload ≡ req.digest)
            × (get_blob req s ≡ (
              ok (record {
                digest = req.digest;
                byte_count = length slot.payload;
                namespace = req.namespace;
                payload = slot.payload;
              }),
              s,
            )))
  unfolding get_blob check_stored ◌>>=◌
  get_blob-IsIntact s req h = elim (Option-cases (blob_lookup req.namespace req.digest s.blobs)) [
    | inl absent ↦ inl (absent, rw absent)
    | inr (slot, found) ↦
        (let k = h.at_key req.namespace req.digest slot found in
          inr (slot, k.0, rw found (check_stored_ok slot s req.digest req.namespace k)))
  ]

  -- A kernel that has served any calls from the start never answers a get_blob with a corruption
  -- error: either the blob is not there and the answer is NotFound, or it comes back with bytes
  -- whose digest is the requested one, their number and the namespace. The state does not change.
  pub get_blob-serve :
      (policy : ArtifactStorePolicy) (cs : List Call) (req : GetBlobRequest)
      → let s = serve policy cs default_state in
        ((blob_lookup req.namespace req.digest s.blobs ≡ none)
          × (get_blob req s ≡ (err (not_found (lit "blob " ++ req.digest)), s)))
        ⊎ ((slot : BlobSlot) × (blob_id slot.payload ≡ req.digest)
            × (get_blob req s ≡ (
              ok (record {
                digest = req.digest;
                byte_count = length slot.payload;
                namespace = req.namespace;
                payload = slot.payload;
              }),
              s,
            )))
  get_blob-serve policy cs req = get_blob-IsIntact _ req (IsIntact-reachable policy cs)
