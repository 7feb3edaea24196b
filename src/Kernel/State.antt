-- ===== src/Kernel/State.antt =====
-- The records behind the kernel's lock, the actions on them, and `append_locked`. A method takes
-- the lock for its whole run, so it is one action; a state that an error or a panic leaves behind
-- keeps what was written before.
use srcport_substrate.Base.{
  ℕ, ◌&&◌, Bool, true, false, Option, none, some, List, [], ◌∷◌, ◌++◌, Str, Bytes, no_bytes, lit,
  is_empty, ◌==◌, length, last, if◌then◌else◌,
}
use srcport_substrate.Base.Int.{ℤ, pos, leb_ℤ, ltb_ℤ}
use srcport_substrate.Base.Map
use srcport_substrate.Base.Map.{Map}
use srcport_substrate.Proto.{
  Lifecycle, ModuleManifest, Capability, Contract, Artifact, ArtifactRef, BlobRef, Event,
  LedgerEntry, Run, WorkItem, Derivation, RequestContext,
}
use srcport_substrate.Kernel.Platform.{Platform}
use srcport_substrate.Kernel.Error.{KernelError, failed_precondition, Result, ok, err, panic}
use srcport_substrate.Kernel.Digest.{ledger_hash}

-- A subscription: its topics, and the bounded channel with the events that its receiver has not
-- taken yet. `connected` turns false when the receiver is dropped.
pub record Sub : Type 0 where
  pub topics : List Str
  pub queue : List Event
  pub connected : Bool

pub record ModuleSlot : Type 0 where
  pub manifest : ModuleManifest
  pub lifecycle : Lifecycle

pub record ClaimedSlot : Type 0 where
  pub work : WorkItem
  pub unit_key : Str
  pub lease_until_ms : ℤ
  pub attempt : ℕ

pub record RunSlot : Type 0 where
  pub run : Run
  pub claimed : Map ClaimedSlot
  pub latest : Map Derivation
  pub done_units : List Str
  pub claim_attempts : Map ℕ
  pub input_epochs : Map ℕ
  pub node_commits : Map ℕ
  pub max_in_flight : ℕ
  pub default_lease_ms : ℕ
  pub max_attempts : ℕ

pub record BlobSlot : Type 0 where
  pub payload : Bytes
  pub ref : BlobRef

pub data IdempotentResult : Type 0 where
  artifact_ref : ArtifactRef → IdempotentResult
  run : Run → IdempotentResult

-- Blobs are keyed by namespace and digest.
pub record BlobEntry : Type 0 where
  pub namespace : Str
  pub digest : Str
  pub slot : BlobSlot

pub record State : Type 0 where
  pub modules : List ModuleSlot
  pub capabilities : List Capability
  pub contracts : Map Contract
  pub artifacts : Map Artifact
  pub blobs : List BlobEntry
  pub subs : List Sub
  pub ledger : List LedgerEntry
  pub runs : Map RunSlot
  pub derivations : List Derivation
  pub event_seq : ℕ
  pub idempotency : Map IdempotentResult

abbrev pub default_state : State
default_state = record {
  modules = [];
  capabilities = [];
  contracts = [];
  artifacts = [];
  blobs = [];
  subs = [];
  ledger = [];
  runs = [];
  derivations = [];
  event_seq = 0;
  idempotency = [];
}

unfoldable pub blob_lookup : Str → Str → List BlobEntry → Option BlobSlot
blob_lookup namespace digest [] = none
blob_lookup namespace digest (e ∷ es) =
    if e.namespace == namespace && e.digest == digest
    then some e.slot
    else blob_lookup namespace digest es

-- An action on the kernel's state.
abbrev pub M : Type 0 → Type 0
M A = State → Result A × State

unfoldable pub pure : {A : Type 0} → A → M A
pure a s = (ok a, s)

unfoldable pub fail : {A : Type 0} → KernelError → M A
fail e s = (err e, s)

unfoldable pub lift : {A : Type 0} → Result A → M A
lift r s = (r, s)

unfoldable pub gets : {A : Type 0} → (State → A) → M A
gets f s = (ok (f s), s)

unfoldable pub modify : (State → State) → M (Unit {0})
modify f s = (ok tt, f s)

-- ok_or_else
unfoldable pub ok_or : {A : Type 0} → Option A → KernelError → M A
ok_or none e s = (err e, s)
ok_or (some a) e s = (ok a, s)

-- unwrap()
unfoldable pub unwrap : {A : Type 0} → Option A → M A
unwrap none s = (panic, s)
unwrap (some a) s = (ok a, s)

-- `if test { return Err(e) }`
unfoldable pub refuse_if : Bool → KernelError → M (Unit {0})
refuse_if true e s = (err e, s)
refuse_if false e s = (ok tt, s)

abbrev pub continue : {A B : Type 0} → Result A → (A → M B) → M B
continue (ok a) f s = f a s
continue (err e) f s = (err e, s)
continue panic f s = (panic, s)

infixl 5 ◌>>=◌ ◌>>◌
-- Opening this opens the actions above too.
unfoldable pub ◌>>=◌ : {A B : Type 0} → M A → (A → M B) → M B
unfolding pure fail lift gets modify ok_or unwrap refuse_if
◌>>=◌ m f s = let (r, s') = m s in continue r f s'

abbrev pub ◌>>◌ : {B : Type 0} → M (Unit {0}) → M B → M B
check >> rest = check >>= λ u. rest

-- `now` is the wall clock, in milliseconds since the epoch.
unfoldable pub check_deadline : ℤ → RequestContext → Result (Unit {0})
check_deadline now ctx =
    if leb_ℤ ctx.deadline_unix_ms (pos 0)
    then ok tt
    else if ltb_ℤ ctx.deadline_unix_ms now
    then err (failed_precondition (lit "deadline exceeded"))
    else ok tt

unfoldable pub idempotency_key : Str → RequestContext → Option Str
idempotency_key op ctx =
    if is_empty ctx.request_key
    then none
    else some (op ++ (0 ∷ (ctx.caller ++ (0 ∷ ctx.request_key))))

unfoldable pub idempotent_get : Str → RequestContext → State → Option IdempotentResult
unfolding idempotency_key
idempotent_get op ctx state = elim (idempotency_key op ctx) [
  | none ↦ none
  | some key ↦ Map.lookup key state.idempotency
]

unfoldable pub idempotent_put : Str → RequestContext → IdempotentResult → State → State
unfolding idempotency_key
idempotent_put op ctx value state = elim (idempotency_key op ctx) [
  | none ↦ state
  | some key ↦ record state { idempotency = Map.or_insert key value state.idempotency }
]

abbrev pub last_hash : Option LedgerEntry → Str
last_hash none = no_bytes
last_hash (some e) = e.hash

module _ ⦃p : Platform⦄ where
  unfoldable pub next_entry : List LedgerEntry → Str → Str → Bytes → LedgerEntry
  next_entry ledger kind subject detail =
      let seq = length ledger in
      let prev_hash = last_hash (last ledger) in
      record {
        seq = seq;
        kind = kind;
        subject = subject;
        detail = detail;
        prev_hash = prev_hash;
        hash = ledger_hash seq kind subject detail prev_hash;
      }

  unfoldable pub append_locked : Str → Str → Bytes → State → State
  append_locked kind subject detail state = record state {
    ledger = state.ledger ++ next_entry state.ledger kind subject detail ∷ [];
  }
