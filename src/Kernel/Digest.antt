-- ===== src/Kernel/Digest.antt =====
-- Content addressing and ledger hashing: the hash rules, `verify_chain` and `hex`.
pub mod Format
pub mod Tamper
use srcport_substrate.Base.{
  ℕ, suc, ◌+◌, ◌/◌, ◌%◌, Bool, true, false, not, ◌||◌, Option, none, some, List, [], ◌∷◌, ◌++◌, Str,
  Bytes, no_bytes, lit, ◌==◌, is_empty, is_nil, eqb, ltb, if◌then◌else◌, bytes_of_u64, utf8_sort,
  flat_map, length, ◌&&◌,
}
use srcport_substrate.Base.Map
use srcport_substrate.Base.Map.{Map}
use srcport_substrate.Proto.{
  ObjectRef, Trait, Artifact, Contract, LedgerEntry, NamedArtifact, Derivation,
}
use srcport_substrate.Kernel.Platform.{Platform}

abbrev pub sep : Bytes
sep = 0 ∷ []

hex_digit : ℕ → ℕ
hex_digit d = if ltb d 10 then 48 + d else 87 + d

-- The hexadecimal digits of each byte, the high one first.
unfoldable pub hex : Bytes → Str
unfolding hex_digit
hex [] = []
hex (b ∷ bytes) = hex_digit (b / 16) ∷ hex_digit (b % 16) ∷ hex bytes

unfoldable pub object_ref_bytes : ObjectRef → Bytes
object_ref_bytes object =
    object.digest ++ (sep ++ (bytes_of_u64 object.byte_count ++ (sep ++ object.namespace)))

unfoldable pub trait_content : Trait → Bytes
unfolding object_ref_bytes
trait_content tr = elim tr.object [
  | none ↦ tr.body
  | some obj ↦ if is_empty obj.digest then tr.body else object_ref_bytes obj
]

unfoldable pub trait_has_external : Trait → Bool
trait_has_external tr = elim tr.object [ none ↦ false | some o ↦ not (is_empty o.digest) ]

-- The bytes of one trait of the bag, looked up by its contract ref.
trait_row : Map Trait → Str → Bytes
unfolding trait_content
trait_row traits k = elim (Map.lookup k traits) [
  | none ↦ []
  | some f ↦ k ++ (sep ++ (trait_content f ++ sep))
]

unfoldable pub artifact_canonical_bytes : Artifact → Bytes
unfolding trait_row utf8_sort Map.lookup
artifact_canonical_bytes artifact =
    flat_map (trait_row artifact.traits) (utf8_sort (Map.keys artifact.traits))

-- The `name ‖ 0x00` of each string.
terminated : List Str → Bytes
terminated = flat_map (λ c. c ++ sep)

named_row : NamedArtifact → Bytes
named_row value = value.name ++ (sep ++ (elim value.artifact [ none ↦ [] | some r ↦ r.id ] ++ sep))

-- The bytes that `ledger_hash` feeds to the hash.
unfoldable pub ledger_bytes : ℕ → Str → Str → Bytes → Str → Bytes
ledger_bytes seq kind subject detail prev_hash =
    bytes_of_u64 seq
    ++ (sep ++ (kind ++ (sep ++ (subject ++ (sep ++ (detail ++ (sep ++ prev_hash)))))))

module _ ⦃p : Platform⦄ where
  unfoldable pub blob_id : Bytes → Str
  blob_id bytes = lit "sha256:" ++ hex (p.sha256 bytes)

  unfoldable pub artifact_id_of : Artifact → Str
  artifact_id_of artifact = lit "sha256:" ++ hex (p.sha256 (artifact_canonical_bytes artifact))

  unfoldable pub contract_digest : Str → Str → Str → List Str → Str
  unfolding terminated
  contract_digest media_type schema version compatible_with =
      lit "sha256:"
      ++ hex
          (p.sha256 (terminated (media_type ∷ schema ∷ version ∷ []) ++ terminated compatible_with))

  unfoldable pub contract_digest_of : Contract → Str
  contract_digest_of c =
      contract_digest c.media_type c.schema c.version (utf8_sort c.compatible_with)

  unfoldable pub ledger_hash : ℕ → Str → Str → Bytes → Str → Str
  ledger_hash seq kind subject detail prev_hash =
      hex (p.sha256 (ledger_bytes seq kind subject detail prev_hash))

  -- The loop of `verify_chain` from position `i`, where `prev` is the hash before it.
  unfoldable pub verify_from : ℕ → Str → List LedgerEntry → Bool
  verify_from i prev [] = true
  verify_from i prev (e ∷ entries) =
      let rest = verify_from (suc i) e.hash entries in
      if not (eqb e.seq i) || not (e.prev_hash == prev)
      then false
      else if not (ledger_hash e.seq e.kind e.subject e.detail e.prev_hash == e.hash)
      then false
      else rest

  unfoldable pub verify_chain : List LedgerEntry → Bool
  verify_chain entries = verify_from 0 no_bytes entries

  unfoldable pub derivation_id : Derivation → Str
  unfolding terminated named_row
  derivation_id d =
      lit "sha256:"
      ++ hex (
          p.sha256 (
            terminated (
              d.run_id ∷ d.work_id ∷ d.node_id ∷ d.module_name ∷ d.module_version ∷ d.capability
              ∷ [])
            ++ (flat_map named_row (d.inputs ++ d.outputs))))

unfoldable pub is_contract_placeholder : Contract → Bool
is_contract_placeholder c =
    is_empty c.media_type && (is_empty c.schema && (is_empty c.version && is_nil c.compatible_with))

is_hex_digit : ℕ → Bool
is_hex_digit c = (ltb 47 c && ltb c 58) || (ltb 96 c && ltb c 103)

all_hex : Str → Bool
unfolding is_hex_digit
all_hex [] = true
all_hex (c ∷ s) = is_hex_digit c && all_hex s

strip_prefix : Str → Str → Option Str
strip_prefix [] s = some s
strip_prefix (c ∷ t) [] = none
strip_prefix (c ∷ t) (d ∷ s) = if eqb c d then strip_prefix t s else none

check_digits : Option Str → Bool
check_digits none = false
check_digits (some digits) = eqb (length digits) 64 && all_hex digits

-- `sha256:` and 64 lower-case hexadecimal digits.
pub is_sha256_digest : Str → Bool
is_sha256_digest d = check_digits (strip_prefix (lit "sha256:") d)
