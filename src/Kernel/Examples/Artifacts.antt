-- ===== src/Kernel/Examples/Artifacts.antt =====
-- The theorems on the ledger, the stores and the registry, applied.
use srcport_substrate.Base.{
  ◌≡◌, ◌⊎◌, refl, true, none, some, List, [], ◌∷◌, ◌++◌, lit, ◌==◌, length,
}
use srcport_substrate.Base.Int.{pos}
use srcport_substrate.Base.Map
use srcport_substrate.Base.Map.{Map}
use srcport_substrate.Proto.{PutBlobRequest, GetBlobRequest, LedgerEntry}
use srcport_substrate.Kernel.Error.{ok, err, not_found}
use srcport_substrate.Kernel.Digest.{
  verify_chain, verify_from, blob_id, artifact_id_of, artifact_canonical_bytes, hex,
  trait_has_external,
}
use srcport_substrate.Kernel.State.{
  State, default_state, BlobSlot, artifact_ref, blob_lookup, ◌>>=◌, append_locked, check_deadline,
  idempotent_get, idempotent_put, next_entry,
}
use srcport_substrate.Kernel.Registry.{verify_ledger}
use srcport_substrate.Kernel.Store.{
  enforce_blob_size, put_artifact_ctx, validate_artifact_content, validate_traits, entry_error,
  put_unless_replayed, put_fresh, verify_objects, store_artifact,
}
use srcport_substrate.Kernel.Api.{
  Call, append, publish, put_artifact, put_blob, serve, after, perform, void,
}
use srcport_substrate.Kernel.Ledger.{verify_ledger-serve, ledger-serve}
use srcport_substrate.Kernel.Error
use srcport_substrate.Kernel.Blobs
use srcport_substrate.Kernel.Blobs.{ref_of, insert_blob, fill_blob, store_blob}
use srcport_substrate.Kernel.Blobs.RoundTrip.{get_blob-serve}
use srcport_substrate.Kernel.Stores.{artifacts-serve, stored_artifact_id, blobs-serve}
use srcport_substrate.Kernel.Examples.{
  example_platform, example_policy, keyed, note, started, remark,
}

abbrev calls : List Call
calls = append remark ∷ put_artifact (pos 1) note keyed ∷ publish started ∷ []

fresh_ledger : verify_ledger default_state ≡ true
unfolding verify_ledger verify_chain verify_from
fresh_ledger = refl

verify_ledger-serve_example : verify_ledger (serve example_policy calls default_state) ≡ true
verify_ledger-serve_example = verify_ledger-serve example_policy calls default_state fresh_ledger

ledger-serve_example :
    (new : List LedgerEntry) × ((serve example_policy calls
        (after example_policy (append remark) default_state)).ledger
      ≡ (after example_policy (append remark) default_state).ledger ++ new)
ledger-serve_example =
    ledger-serve example_policy calls (after example_policy (append remark) default_state)

abbrev put_note : List Call
put_note = put_artifact (pos 1) note keyed ∷ []

stored_note :
    Map.lookup (artifact_id_of note) (serve example_policy put_note default_state).artifacts
    ≡ some (record note { id = artifact_id_of note })
unfolding Map.lookup Map.insert Map.contains_key serve perform void ◌>>=◌ append_locked
    put_artifact_ctx check_deadline validate_artifact_content validate_traits entry_error lit
    trait_has_external put_unless_replayed idempotent_get put_fresh verify_objects store_artifact
    idempotent_put artifact_id_of artifact_canonical_bytes hex ◌==◌ next_entry Error.◌>>=◌
stored_note = refl

artifacts-serve_example :
    Map.lookup
      (artifact_id_of note)
      (serve example_policy calls (serve example_policy put_note default_state)).artifacts
    ≡ some (record note { id = artifact_id_of note })
artifacts-serve_example =
    artifacts-serve example_policy calls (serve example_policy put_note default_state)
      (artifact_id_of note) (record note { id = artifact_id_of note }) stored_note

stored_artifact_id_example :
    ((record note { id = artifact_id_of note }).id ≡ artifact_id_of note)
    × (artifact_id_of (record note { id = artifact_id_of note }) ≡ artifact_id_of note)
stored_artifact_id_example =
    stored_artifact_id example_policy put_note (artifact_id_of note)
      (record note { id = artifact_id_of note }) stored_note

abbrev replied : State
replied = record default_state {
  idempotency = (lit "key", artifact_ref (record { id = lit "note" })) ∷ [];
}

replied_key :
    Map.lookup (lit "key") replied.idempotency ≡ some (artifact_ref (record { id = lit "note" }))
unfolding Map.lookup lit ◌==◌
replied_key = refl

abbrev put_bytes : PutBlobRequest
put_bytes = record { namespace = lit "ns"; payload = 1 ∷ 2 ∷ 3 ∷ [] }

stored_bytes :
    blob_lookup
      (lit "ns")
      (blob_id (1 ∷ 2 ∷ 3 ∷ []))
      (serve example_policy (put_blob put_bytes ∷ []) default_state).blobs
    ≡ some (record { payload = 1 ∷ 2 ∷ 3 ∷ []; ref = ref_of put_bytes })
unfolding blob_lookup serve perform void ◌>>=◌ Blobs.put_blob enforce_blob_size store_blob fill_blob
    insert_blob append_locked blob_id hex lit ◌==◌
stored_bytes = refl

blobs-serve_example :
    blob_lookup
      (lit "ns")
      (blob_id (1 ∷ 2 ∷ 3 ∷ []))
      (serve example_policy calls
        (serve example_policy (put_blob put_bytes ∷ []) default_state)).blobs
    ≡ some (record { payload = 1 ∷ 2 ∷ 3 ∷ []; ref = ref_of put_bytes })
blobs-serve_example =
    blobs-serve example_policy calls (serve example_policy (put_blob put_bytes ∷ []) default_state)
      (lit "ns") (blob_id (1 ∷ 2 ∷ 3 ∷ []))
      (record { payload = 1 ∷ 2 ∷ 3 ∷ []; ref = ref_of put_bytes }) stored_bytes

abbrev get_bytes : GetBlobRequest
get_bytes = record { digest = blob_id (1 ∷ 2 ∷ 3 ∷ []); namespace = lit "ns" }

abbrev with_bytes : State
with_bytes = serve example_policy (put_blob put_bytes ∷ []) default_state

get_blob-serve_example :
    ((blob_lookup (lit "ns") (blob_id (1 ∷ 2 ∷ 3 ∷ [])) with_bytes.blobs ≡ none)
      × (Blobs.get_blob get_bytes with_bytes
          ≡ (err (not_found (lit "blob " ++ blob_id (1 ∷ 2 ∷ 3 ∷ []))), with_bytes)))
    ⊎ ((slot : BlobSlot) × (blob_id slot.payload ≡ blob_id (1 ∷ 2 ∷ 3 ∷ []))
        × (Blobs.get_blob get_bytes with_bytes ≡ (
          ok (record {
            digest = blob_id (1 ∷ 2 ∷ 3 ∷ []);
            byte_count = length slot.payload;
            namespace = lit "ns";
            payload = slot.payload;
          }),
          with_bytes,
        )))
get_blob-serve_example = get_blob-serve example_policy (put_blob put_bytes ∷ []) get_bytes
