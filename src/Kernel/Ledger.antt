-- ===== src/Kernel/Ledger.antt =====
-- The ledger chain under `append_locked` and under sequences of calls.
mod Stable
use srcport_substrate.Base.{
  ℕ, suc, ◌+◌, ◌≡◌, refl, sym, ap, ◌∙◌, Bool, true, false, not, ◌||◌, List, [], ◌∷◌, ◌++◌, none,
  some, Str, Bytes, no_bytes, ◌==◌, eq_iff, eq_refl, eqb, eqb_iff, if◌then◌else◌, length, last,
  arith, append_assoc, append-nil,
}
use srcport_substrate.Proto.{LedgerEntry, ArtifactStorePolicy}
use srcport_substrate.Kernel.Platform.{Platform}
use srcport_substrate.Kernel.Digest.{ledger_hash, verify_from, verify_chain}
use srcport_substrate.Kernel.State.{State, default_state, last_hash, next_entry}
use srcport_substrate.Kernel.Registry.{verify_ledger}
use srcport_substrate.Kernel.Api.{Call, after, serve}
use Stable.{serve-Q}

-- The hash that the entry behind the list links to, where `prev` stands before the list.
head_hash : Str → List LedgerEntry → Str
head_hash prev [] = prev
head_hash prev (e ∷ l) = head_hash e.hash l

head_hash-last :
    (prev : Str) (e : LedgerEntry) (l : List LedgerEntry)
    → head_hash prev (e ∷ l) ≡ last_hash (last (e ∷ l))
unfolding head_hash
head_hash-last prev e [] = refl
head_hash-last prev e (f ∷ l) = head_hash-last e.hash f l

head_hash_lem : (l : List LedgerEntry) → head_hash no_bytes l ≡ last_hash (last l)
unfolding head_hash
head_hash_lem [] = refl
head_hash_lem (e ∷ l) = head_hash-last no_bytes e l

module _ ⦃p : Platform⦄ where
  -- The entry is the one for its place behind the list.
  record Links (i : ℕ) (prev : Str) (l : List LedgerEntry) (e : LedgerEntry) : Type 0 where
    seq_at : e.seq ≡ i + length l
    prev_at : e.prev_hash ≡ head_hash prev l
    hash_at : e.hash ≡ ledger_hash e.seq e.kind e.subject e.detail e.prev_hash

  verify_from-append :
      (i : ℕ) (prev : Str) (l : List LedgerEntry) (e : LedgerEntry)
      → verify_from i prev l ≡ true
      → Links i prev l e
      → verify_from i prev (l ++ e ∷ []) ≡ true
  unfolding verify_from head_hash
  verify_from-append i prev [] e h k = ground (
    arith,
    eq_iff e.prev_hash prev,
    eq_iff (ledger_hash e.seq e.kind e.subject e.detail e.prev_hash) e.hash,
    k.seq_at,
    k.prev_at,
    k.hash_at,
  )
  verify_from-append i prev (f ∷ l) e h k = ground (
    arith,
    verify_from-append (suc i) f.hash l e (ground arith)
        (record { seq_at = omega (arith, k.seq_at); prev_at = k.prev_at; hash_at = k.hash_at }),
  )

  verify_chain-next_entry :
      (l : List LedgerEntry) (kind subject : Str) (detail : Bytes)
      → verify_chain l ≡ true
      → verify_chain (l ++ next_entry l kind subject detail ∷ []) ≡ true
  unfolding verify_chain next_entry
  verify_chain-next_entry l kind subject detail h =
      verify_from-append 0 no_bytes l _ h
        (record { seq_at = omega arith; prev_at = sym (head_hash_lem l); hash_at = refl })

  -- Whatever calls a kernel serves, with whatever arguments, its ledger verifies afterwards, if it
  -- verified before.
  pub verify_ledger-serve :
      (policy : ArtifactStorePolicy) (cs : List Call) (s : State)
      → verify_ledger s ≡ true
      → verify_ledger (serve policy cs s) ≡ true
  unfolding verify_ledger
  verify_ledger-serve policy cs s =
      serve-Q (λ l m. verify_chain l ≡ true → verify_chain m ≡ true) (λ l h. h)
        (λ l m n h k v. k (h v)) verify_chain-next_entry policy cs s

  -- The entries that a ledger holds stay in their places under any calls: what the calls append
  -- comes behind them.
  pub ledger-serve :
      (policy : ArtifactStorePolicy) (cs : List Call) (s : State)
      → (new : List LedgerEntry) × ((serve policy cs s).ledger ≡ s.ledger ++ new)
  ledger-serve policy cs s =
      serve-Q (λ l m. (new : List LedgerEntry) × (m ≡ l ++ new)) (λ l. ([], sym (append-nil l)))
        (λ l m n h k.
          (h.0 ++ k.0, k.1 ∙ ap (λ (x : List LedgerEntry). x ++ k.0) h.1 ∙ append_assoc l h.0 k.0))
        (λ l kind subject detail. (next_entry l kind subject detail ∷ [], refl)) policy cs s
