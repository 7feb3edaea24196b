-- ===== src/Kernel/Registry.antt =====
-- Modules and their lifecycle, contracts, the event bus, the ledger and the registry snapshot.
pub mod Contracts
pub mod Kept
pub mod Bus
pub mod Steps
use srcport_substrate.Base.{
  ℕ, ◌+◌, ◌%◌, ◌^◌, Bool, true, false, not, ◌&&◌, Option, none, some, List, [], ◌∷◌, ◌++◌, map, Str,
  no_bytes, lit, is_empty, ◌==◌, contains, length, ltb, eqb, if◌then◌else◌, find, utf8_sort,
  unwrap_or,
}
use srcport_substrate.Base.Map
use srcport_substrate.Base.Map.{Map}
use srcport_substrate.Proto.{
  Lifecycle, lifecycle_of, lifecycle_number, Port, Capability, ModuleManifest, Contract, Event,
  LedgerEntry, TransitionRequest, AppendRequest, RegistrySnapshot, ArtifactStorePolicy,
  RequestContext,
}
use srcport_substrate.Base.Int.{ℤ}
use srcport_substrate.Kernel.Platform.{Platform, module_manifest, contract, event}
use srcport_substrate.Kernel.Error.{KernelError, not_found, invalid, conflict}
use srcport_substrate.Kernel.Digest.{contract_digest, is_contract_placeholder, verify_chain}
use srcport_substrate.Kernel.State.{
  State, Sub, ModuleSlot, M, ◌>>=◌, ◌>>◌, pure, fail, lift, gets, modify, ok_or, unwrap, refuse_if,
  check_deadline, next_entry, append_locked,
}

unfoldable pub lifecycle_verb : Lifecycle → Str
lifecycle_verb Lifecycle.unspecified = lit "unspecified"
lifecycle_verb Lifecycle.registered = lit "registered"
lifecycle_verb Lifecycle.loaded = lit "loaded"
lifecycle_verb Lifecycle.active = lit "activated"
lifecycle_verb Lifecycle.deactivated = lit "deactivated"

-- iter().find(|m| m.manifest.name == name)
unfoldable pub find_module : Str → List ModuleSlot → Option ModuleSlot
find_module name [] = none
find_module name (m ∷ ms) = if m.manifest.name == name then some m else find_module name ms

-- The write through the reference that `find` on `iter_mut` returns.
unfoldable pub set_lifecycle : Str → Lifecycle → List ModuleSlot → List ModuleSlot
set_lifecycle name to [] = []
set_lifecycle name to (m ∷ ms) =
    let rest = set_lifecycle name to ms in
    if m.manifest.name == name then record m { lifecycle = to } ∷ ms else m ∷ rest

abbrev pub subscriber_buffer : ℕ
subscriber_buffer = 1024

-- `try_send` on a `sync_channel(SUBSCRIBER_BUFFER)`: fails when it is full or disconnected.
unfoldable pub try_send : Event → Sub → Option Sub
try_send e sub =
    if sub.connected && ltb (length sub.queue) subscriber_buffer
    then some (record sub { queue = sub.queue ++ e ∷ [] })
    else none

-- The `retain` of `publish`.
unfoldable pub deliver : Event → List Sub → List Sub
unfolding try_send
deliver e [] = []
deliver e (sub ∷ subs) =
    let rest = deliver e subs in
    if contains sub.topics e.topic
    then elim (try_send e sub) [ none ↦ rest | some sent ↦ sent ∷ rest ]
    else sub ∷ rest

unfoldable pub subscribe : List Str → State → State
subscribe topics state = record state {
  subs = state.subs ++ (record { topics = topics; queue = []; connected = true }) ∷ [];
}

module _ ⦃p : Platform⦄ where
  unfoldable pub ensure_contract_placeholder : Str → State → State
  ensure_contract_placeholder ref state = if is_empty ref then state else record state {
    contracts =
        Map.or_insert ref
          (record {
            ref = ref;
            schema = no_bytes;
            media_type = no_bytes;
            version = no_bytes;
            digest = contract_digest no_bytes no_bytes no_bytes [];
            compatible_with = [];
          })
          state.contracts;
  }

  unfoldable pub ensure_traits : List Str → State → State
  ensure_traits [] state = state
  ensure_traits (t ∷ traits) state = ensure_traits traits (ensure_contract_placeholder t state)

  unfoldable pub ensure_ports : List Port → State → State
  ensure_ports [] state = state
  ensure_ports (port ∷ ports) state = ensure_ports ports (ensure_traits port.traits state)

  -- The loop of `register_ctx` over the provided capabilities.
  unfoldable pub register_capabilities : List Capability → State → State
  unfolding ensure_ports ensure_traits
  register_capabilities [] state = state
  register_capabilities (cap ∷ caps) state = register_capabilities caps (
      ensure_ports (cap.inputs ++ cap.outputs)
        (record state { capabilities = state.capabilities ++ cap ∷ [] }))

  unfoldable pub add_module : ModuleManifest → State → State
  add_module manifest state = record state {
    modules =
        state.modules ++ (record { manifest = manifest; lifecycle = Lifecycle.registered }) ∷ [];
  }

  unfoldable pub register_ctx : ModuleManifest → M ℕ
  register_ctx manifest = do
    modify (register_capabilities manifest.provides)
    modify (add_module manifest)
    modify (
        append_locked (lit "module.registered") manifest.name
          (p.encode_to_vec (module_manifest manifest)))
    pure (lifecycle_number Lifecycle.registered)

  -- The single forward step, or nothing.
  unfoldable pub advance_module : Str → Lifecycle → Lifecycle → State → State
  advance_module name from to state =
      if eqb (lifecycle_number to) (lifecycle_number from + 1)
      then append_locked (lit "module." ++ lifecycle_verb to) name []
          (record state { modules = set_lifecycle name to state.modules })
      else state

  unfoldable pub transition_req : ℤ → TransitionRequest → RequestContext → M ℕ
  transition_req now req ctx = do
    lift (check_deadline now ctx)
    found ← gets (λ s. find_module req.module_name s.modules)
    slot ← ok_or found (not_found req.module_name)
    modify (
        advance_module req.module_name slot.lifecycle
          (unwrap_or (lifecycle_of req.to) Lifecycle.unspecified))
    reread ← gets (λ s. find_module req.module_name s.modules)
    after ← unwrap reread
    pure (lifecycle_number after.lifecycle)

  -- Stores and ledgers a contract.
  unfoldable pub store_contract : Contract → State → State
  store_contract c state =
      append_locked (lit "contract.registered") c.ref (p.encode_to_vec (contract c))
        (record state { contracts = Map.insert c.ref c state.contracts })

  unfoldable pub put_over : Contract → Option Contract → M Contract
  put_over c none = do modify (store_contract c); pure c
  put_over c (some existing) =
      if existing.digest == c.digest
      then pure existing
      else if is_contract_placeholder existing && not (is_contract_placeholder c)
      then (do modify (store_contract c); pure c)
      else fail (
          conflict (lit "contract " ++ (c.ref ++ lit " already registered with different content")))

  -- The contract with sorted `compatible_with` and the digest of its content.
  unfoldable pub normalized_contract : Contract → Contract
  normalized_contract c =
      let compatible_with = utf8_sort c.compatible_with in
      record c {
        compatible_with = compatible_with;
        digest = contract_digest c.media_type c.schema c.version compatible_with;
      }

  unfoldable pub put_contract : Contract → M Contract
  put_contract c = do
    refuse_if (is_empty c.ref) (invalid (lit "contract ref is required"))
    let stored = normalized_contract c
    refuse_if (not (is_empty c.digest) && not (c.digest == stored.digest))
        (invalid (lit "contract digest mismatch"))
    found ← gets (λ s. Map.lookup stored.ref s.contracts)
    put_over stored found

  -- `publish` with the sequence number that it assigns.
  unfoldable pub publish_event : Event → State → State
  publish_event e state =
      append_locked (lit "event.published") e.topic (p.encode_to_vec (event e))
        (record state { event_seq = e.seq; subs = deliver e state.subs })

  unfoldable pub publish : Event → M ℕ
  publish e = do
    last_seq ← gets (λ s. s.event_seq)
    let seq = (last_seq + 1) % 2 ^ 64
    modify (publish_event (record e { seq = seq }))
    pure seq

  unfoldable pub append : AppendRequest → M LedgerEntry
  append req = do
    entry ← gets (λ s. next_entry s.ledger req.kind req.subject req.detail)
    modify (append_locked req.kind req.subject req.detail)
    pure entry

  unfoldable pub verify_ledger : State → Bool
  verify_ledger state = verify_chain state.ledger

unfoldable pub snapshot : ArtifactStorePolicy → State → RegistrySnapshot
snapshot policy state = record {
  modules = map (λ m. m.manifest) state.modules;
  capabilities = state.capabilities;
  contracts = Map.values state.contracts;
  store_policy = some policy;
}
