-- ===== src/Kernel/Examples/Registry.antt =====
-- The theorems on puts, digests and the registry, applied.
use srcport_substrate.Base.{
  ℕ, zero, suc, bytes_of_u64, ◌<◌, ◌≡◌, ◌≢◌, ◌⊎◌, refl, true, false, none, some, List, [], ◌∷◌,
  ◌++◌, Bytes, lit, ◌==◌, All, arith, map, filter, is_empty,
}
use srcport_substrate.Base.Int.{pos}
use srcport_substrate.Base.Map
use srcport_substrate.Base.Map.{Map}
use srcport_substrate.Proto.{
  ArtifactRef, LedgerEntry, Lifecycle, Contract, lifecycle_number, TransitionRequest,
}
use srcport_substrate.Kernel.Platform.{Platform}
use srcport_substrate.Kernel.Error.{ok, err}
use srcport_substrate.Kernel.Error
use srcport_substrate.Kernel.Digest.{
  verify_chain, verify_from, ledger_hash, ledger_bytes, blob_id, artifact_id_of,
  artifact_canonical_bytes, hex, trait_has_external, is_sha256_digest, is_contract_placeholder,
}
use srcport_substrate.Kernel.Digest.Format.{HasDigests, ids_are_digests}
use srcport_substrate.Kernel.Digest.Tamper.{
  IsClean, Collision, verified_ledgers_agree, verify_chain_moved_nul,
}
use srcport_substrate.Kernel.State.{
  State, default_state, Sub, ◌>>=◌, append_locked, check_deadline, idempotent_get, idempotent_put,
  next_entry,
}
use srcport_substrate.Kernel.Registry.{deliver, find_module, transition_req}
use srcport_substrate.Kernel.Registry.Bus.{deliver_lem, delivered_to, stays, IsBounded}
use srcport_substrate.Kernel.Registry.Steps.{transition_req_lem, next_lifecycle}
use srcport_substrate.Kernel.Registry.Kept.{contracts-serve}
use srcport_substrate.Kernel.Store.{
  get_artifact, put_artifact_ctx, validate_artifact_content, validate_traits, entry_error,
  put_unless_replayed, put_fresh, verify_objects, store_artifact,
}
use srcport_substrate.Kernel.Store.RoundTrip.{get-put_artifact, put_artifact_again}
use srcport_substrate.Kernel.Api.{Call, append, publish, serve}
use srcport_substrate.Kernel.Examples.{
  example_platform, example_policy, keyed, note, started, remark, listener, copier,
}

abbrev calls : List Call
calls = append remark ∷ publish started ∷ []

-- The state after the put of the note under a key.
abbrev put_note : State
put_note = (put_artifact_ctx example_policy (pos 1) note keyed default_state).1

abbrev note_ref : ArtifactRef
note_ref = record { id = artifact_id_of note }

in_time : check_deadline (pos 1) keyed ≡ ok tt
unfolding check_deadline
in_time = refl

valid_note : validate_artifact_content note example_policy ≡ ok tt
unfolding validate_artifact_content validate_traits entry_error lit trait_has_external
valid_note = refl

no_reply : idempotent_get (lit "put_artifact") keyed default_state ≡ none
unfolding idempotent_get Map.lookup lit
no_reply = refl

not_stored : Map.lookup (artifact_id_of note) default_state.artifacts ≡ none
unfolding Map.lookup
not_stored = refl

put_ok : put_artifact_ctx example_policy (pos 1) note keyed default_state ≡ (ok note_ref, put_note)
unfolding Map.lookup Map.insert Map.contains_key ◌>>=◌ append_locked put_artifact_ctx check_deadline
    validate_artifact_content validate_traits entry_error lit trait_has_external put_unless_replayed
    idempotent_get put_fresh verify_objects store_artifact idempotent_put artifact_id_of
    artifact_canonical_bytes hex ◌==◌ next_entry Error.◌>>=◌
put_ok = refl

get-put_artifact_example :
    (note_ref.id ≡ artifact_id_of note)
    × (get_artifact note_ref (serve example_policy calls put_note)
        ≡ (ok (record note { id = artifact_id_of note }), serve example_policy calls put_note))
get-put_artifact_example =
    get-put_artifact example_policy (pos 1) note keyed default_state put_note note_ref calls in_time
      valid_note no_reply not_stored put_ok

keyed_full : is_empty keyed.request_key ≡ false
unfolding lit
keyed_full = refl

put_artifact_again_example :
    put_artifact_ctx example_policy (pos 1) note keyed (serve example_policy calls put_note)
    ≡ (ok note_ref, serve example_policy calls put_note)
put_artifact_again_example =
    put_artifact_again example_policy (pos 1) (pos 1) note keyed default_state put_note note_ref
      calls keyed_full in_time in_time valid_note no_reply put_ok

zeros : ℕ → Bytes
zeros zero = []
zeros (suc n) = 0 ∷ zeros n

zeros_small : (n : ℕ) → All (λ b. b < 256) (zeros n)
unfolding zeros
zeros_small zero = tt
zeros_small (suc n) = (omega arith, zeros_small n)

abbrev zero_platform : Platform
unfolding zeros
zero_platform = record example_platform { sha256 = λ bytes. zeros 32 }

zero_digests : HasDigests zero_platform
unfolding zeros
zero_digests = record { digest_length = λ x. refl; digest_bytes = λ x. zeros_small 32 }

ids_are_digests_example :
    (is_sha256_digest (blob_id ⦃p = zero_platform⦄ (1 ∷ [])) ≡ true)
    × (is_sha256_digest (artifact_id_of ⦃p = zero_platform⦄ note) ≡ true)
ids_are_digests_example = ids_are_digests ⦃p = zero_platform⦄ (1 ∷ []) note zero_digests

abbrev first : LedgerEntry
first = next_entry [] (lit "note") (lit "s") (5 ∷ [])

abbrev second : LedgerEntry
second = next_entry (first ∷ []) (lit "note") (lit "t") []

abbrev two : List LedgerEntry
two = first ∷ second ∷ []

two_verify : verify_chain two ≡ true
unfolding verify_chain verify_from next_entry ledger_hash ledger_bytes hex lit ◌==◌ bytes_of_u64
two_verify = refl

two-IsClean : All IsClean two
unfolding next_entry ledger_hash ledger_bytes hex lit
two-IsClean = ground arith

verified_ledgers_agree_example : Collision ⊎ (two ≡ two)
verified_ledgers_agree_example =
    verified_ledgers_agree two two two_verify two_verify (two-IsClean, two-IsClean) refl refl

abbrev with_nul : LedgerEntry
with_nul = record first { subject = lit "s" ++ 0 ∷ [] }

verify_chain_moved_nul_example :
    (with_nul ≢ record with_nul { subject = lit "s"; detail = 0 ∷ with_nul.detail })
    × (verify_chain ([] ++ with_nul ∷ second ∷ [])
        ≡ verify_chain (
            []
            ++ record with_nul { subject = lit "s"; detail = 0 ∷ with_nul.detail } ∷ second ∷ []))
verify_chain_moved_nul_example = verify_chain_moved_nul [] (second ∷ []) with_nul (lit "s") refl

abbrev watched : List Sub
watched = listener ∷ record listener { connected = false } ∷ record listener { topics = [] } ∷ []

watched-IsBounded : IsBounded watched
watched-IsBounded = ground arith

deliver_lem_example :
    (deliver started watched ≡ map (delivered_to started) (filter (stays started) watched))
    × IsBounded (deliver started watched)
deliver_lem_example = deliver_lem started watched watched-IsBounded

abbrev registered : State
registered = record default_state { modules = record copier { lifecycle = Lifecycle.loaded } ∷ [] }

abbrev activate : TransitionRequest
activate = record { module_name = lit "copier"; to = pos 3 }

registered_copier :
    find_module (lit "copier") registered.modules
    ≡ some (record copier { lifecycle = Lifecycle.loaded })
unfolding find_module lit ◌==◌
registered_copier = refl

other_name : lit "copier" == lit "other" ≡ false
unfolding lit ◌==◌
other_name = refl

transition_req_lem_example :
    ((transition_req (pos 1) activate keyed registered).0
      ≡ ok (lifecycle_number (next_lifecycle Lifecycle.loaded (pos 3))))
    × (find_module (lit "copier") (transition_req (pos 1) activate keyed registered).1.modules
        ≡ some (record copier { lifecycle = next_lifecycle Lifecycle.loaded (pos 3) }))
    × (find_module (lit "other") (transition_req (pos 1) activate keyed registered).1.modules
        ≡ find_module (lit "other") registered.modules)
transition_req_lem_example =
    transition_req_lem (pos 1) activate keyed registered
      (record copier { lifecycle = Lifecycle.loaded }) (lit "other") in_time registered_copier
      other_name

abbrev text_contract : Contract
text_contract = record {
  ref = lit "text/v1";
  schema = lit "string";
  media_type = lit "text/plain";
  version = lit "1";
  digest = [];
  compatible_with = [];
}

abbrev with_contract : State
with_contract = record default_state { contracts = (lit "text/v1", text_contract) ∷ [] }

contract_there : Map.lookup (lit "text/v1") with_contract.contracts ≡ some text_contract
unfolding Map.lookup lit ◌==◌
contract_there = refl

contract_full : is_contract_placeholder text_contract ≡ false
unfolding is_contract_placeholder lit
contract_full = refl

abbrev second_version : List Call
second_version = Call.put_contract (pos 1) (record text_contract { version = lit "2" }) keyed ∷ []

contracts-serve_example :
    Map.lookup (lit "text/v1") (serve example_policy second_version with_contract).contracts
    ≡ some text_contract
contracts-serve_example =
    contracts-serve example_policy second_version with_contract (lit "text/v1") text_contract
      contract_there contract_full
