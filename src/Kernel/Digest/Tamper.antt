-- ===== src/Kernel/Digest/Tamper.antt =====
-- `verify_chain` and changed entries.
use srcport_substrate.Base.{
  ℕ, suc, ◌<◌, ◌≡◌, ◌≢◌, refl, sym, ap, ◌∙◌, true, ◌⊎◌, inl, inr, List, [], ◌∷◌, ◌++◌, Str, Bytes,
  ◌==◌, eq_iff, All, Bool-cases, length, arith, append_assoc, bytes_of_u64,
}
use srcport_substrate.Proto.{LedgerEntry}
use srcport_substrate.Kernel.Platform.{Platform}
use srcport_substrate.Kernel.Digest.{hex, ledger_bytes, ledger_hash, verify_from, verify_chain}

abbrev pub IsNulFree : Str → Type 0
IsNulFree s = All (λ c. 0 < c) s

-- The hash of the last entry.
abbrev pub head_of : Str → List LedgerEntry → Str
head_of prev [] = prev
head_of prev (e ∷ l) = head_of e.hash l

hex-IsNulFree : (b : Bytes) → IsNulFree (hex b)
unfolding hex
hex-IsNulFree [] = tt
hex-IsNulFree (x ∷ b) = (ground arith, (ground arith, hex-IsNulFree b))

-- A NUL ends the prefix before it.
pub split_prefix :
    (a b x y : Bytes) → IsNulFree a → IsNulFree b → a ++ 0 ∷ x ≡ b ++ 0 ∷ y → (a ≡ b) × (x ≡ y)
split_prefix [] [] x y ha hb e = (refl, cc)
split_prefix [] (d ∷ b) x y ha hb e = absurd (grind arith)
split_prefix (c ∷ a) [] x y ha hb e = absurd (grind arith)
split_prefix (c ∷ a) (d ∷ b) x y ha hb e =
    let h = split_prefix a b x y ha.1 hb.1 (cc) in (cc (h.0), h.1)

not_inside : (ds s t : Bytes) → IsNulFree s → s ≡ ds ++ 0 ∷ t → ⊥
not_inside [] [] t h e = cc
not_inside [] (c ∷ s) t h e = grind arith
not_inside (d ∷ ds) [] t h e = cc
not_inside (d ∷ ds) (c ∷ s) t h e = not_inside ds s t h.1 (cc)

-- A NUL begins the suffix behind it.
split_suffix :
    (a b x y : Bytes) → IsNulFree x → IsNulFree y → a ++ 0 ∷ x ≡ b ++ 0 ∷ y → (a ≡ b) × (x ≡ y)
split_suffix [] [] x y hx hy e = (refl, cc)
split_suffix [] (d ∷ b) x y hx hy e = absurd (not_inside b x y hx (cc))
split_suffix (c ∷ a) [] x y hx hy e = absurd (not_inside a y x hy (cc))
split_suffix (c ∷ a) (d ∷ b) x y hx hy e =
    let h = split_suffix a b x y hx hy (cc) in (cc (h.0), h.1)

drop_prefix : (s x y : Bytes) → s ++ 0 ∷ x ≡ s ++ 0 ∷ y → x ≡ y
drop_prefix [] x y e = cc
drop_prefix (c ∷ s) x y e = drop_prefix s x y (cc)

-- An entry whose kind and subject hold no NUL.
abbrev pub IsClean : LedgerEntry → Type 0
IsClean e = IsNulFree e.kind × IsNulFree e.subject

-- With no NUL in kind, subject and previous hash, the hashed bytes determine the four fields.
ledger_bytes-injective :
    (n : ℕ) (kind subject detail prev kind' subject' detail' prev' : Str)
    → IsNulFree kind × IsNulFree kind'
    → IsNulFree subject × IsNulFree subject'
    → IsNulFree prev × IsNulFree prev'
    → ledger_bytes n kind subject detail prev ≡ ledger_bytes n kind' subject' detail' prev'
    → (kind ≡ kind') × (subject ≡ subject') × (detail ≡ detail') × (prev ≡ prev')
unfolding ledger_bytes
ledger_bytes-injective n k s d v k' s' d' v' hk hs hv e =
    let a = split_prefix k k' _ _ hk.0 hk.1 (drop_prefix (bytes_of_u64 n) _ _ e) in
    let b = split_prefix s s' _ _ hs.0 hs.1 a.1 in
    let c = split_suffix d d' v v' hv.0 hv.1 b.1 in (a.0, b.0, c.0, c.1)

module _ ⦃p : Platform⦄ where
  -- Two different inputs of the hash with one digest.
  pub record Collision : Type 0 where
    pub one : Bytes
    pub other : Bytes
    pub differ : one ≢ other
    pub digest : hex (p.sha256 one) ≡ hex (p.sha256 other)

  pub same_or_collide : (x y : Bytes) → hex (p.sha256 x) ≡ hex (p.sha256 y) → Collision ⊎ (x ≡ y)
  same_or_collide x y h = elim (Bool-cases (x == y)) [
    | inl e ↦ inr ((eq_iff x y).0 e)
    | inr e ↦
        inl (record { one = x; other = y; differ = λ q. cc ((eq_iff x y).1 q, e); digest = h })
  ]

  -- What `verify_from` has checked of the first entry.
  verified_entry :
      (i : ℕ) (prev : Str) (e : LedgerEntry) (l : List LedgerEntry)
      → verify_from i prev (e ∷ l) ≡ true
      → (e.seq ≡ i)
        × (e.prev_hash ≡ prev)
        × (e.hash ≡ ledger_hash e.seq e.kind e.subject e.detail e.prev_hash)
        × (verify_from (suc i) e.hash l ≡ true)
  unfolding verify_from
  verified_entry i prev e l h = ground (
    arith,
    eq_iff e.prev_hash prev,
    eq_iff (ledger_hash e.seq e.kind e.subject e.detail e.prev_hash) e.hash,
  )

  entry_bytes : LedgerEntry → Bytes
  entry_bytes e = ledger_bytes e.seq e.kind e.subject e.detail e.prev_hash

  -- Two entries with the facts that `verify_from` checks, and with one hash.
  entries_agree :
      (i : ℕ) (prev prev' : Str) (e f : LedgerEntry)
      → IsNulFree prev × IsNulFree prev'
      → IsClean e × IsClean f
      → (e.seq ≡ i) × (e.prev_hash ≡ prev) × (e.hash ≡ hex (p.sha256 (entry_bytes e)))
      → (f.seq ≡ i) × (f.prev_hash ≡ prev') × (f.hash ≡ hex (p.sha256 (entry_bytes f)))
      → e.hash ≡ f.hash
      → Collision ⊎ ((prev ≡ prev') × (e ≡ f))
  unfolding entry_bytes
  entries_agree i prev prev' e f free clean v w h =
      elim (same_or_collide (entry_bytes e) (entry_bytes f) (sym v.2 ∙ h ∙ w.2)) [
        | inl c ↦ inl c
        | inr q ↦
            (let r =
                ledger_bytes-injective i e.kind e.subject e.detail e.prev_hash f.kind f.subject
                  f.detail f.prev_hash (clean.0.0, clean.1.0) (clean.0.1, clean.1.1)
                  (rw v.1 free.0, rw w.1 free.1) (cc (q, v.0, w.0)) in
              inr (sym v.1 ∙ r.3 ∙ w.1, ground (arith, r.0, r.1, r.2, r.3)))
      ]

  hash-IsNulFree : (h : Str) (b : Bytes) → h ≡ hex (p.sha256 b) → IsNulFree h
  hash-IsNulFree h b e = rw e (hex-IsNulFree (p.sha256 b))

  chains_agree :
      (i : ℕ) (prev prev' : Str) (l m : List LedgerEntry)
      → IsNulFree prev × IsNulFree prev'
      → verify_from i prev l ≡ true
      → verify_from i prev' m ≡ true
      → All IsClean l × All IsClean m
      → length l ≡ length m
      → head_of prev l ≡ head_of prev' m
      → Collision ⊎ ((prev ≡ prev') × (l ≡ m))
  unfolding ledger_hash entry_bytes
  chains_agree i prev prev' [] [] free v w clean n h = inr (h, refl)
  chains_agree i prev prev' [] (f ∷ m) free v w clean n h = absurd (omega arith)
  chains_agree i prev prev' (e ∷ l) [] free v w clean n h = absurd (omega arith)
  chains_agree i prev prev' (e ∷ l) (f ∷ m) free v w clean n h =
      let a = verified_entry i prev e l v in
      let b = verified_entry i prev' f m w in
      elim (chains_agree (suc i) e.hash f.hash l m
        (hash-IsNulFree e.hash (entry_bytes e) a.2, hash-IsNulFree f.hash (entry_bytes f) b.2) a.3
        b.3 (clean.0.1, clean.1.1) (omega arith) h) [
          | inl c ↦ inl c
          | inr same ↦
              elim (entries_agree i prev prev' e f free (clean.0.0, clean.1.0) (a.0, a.1, a.2)
                (b.0, b.1, b.2) same.0) [ inl c ↦ inl c | inr q ↦ inr (q.0, cc (q.1, same.1)) ]
        ]

  -- Two ledgers that verify, of one length and with one last hash, whose kinds and subjects hold
  -- no NUL byte, are equal, or they show a collision of the hash.
  pub verified_ledgers_agree :
      (l m : List LedgerEntry)
      → verify_chain l ≡ true
      → verify_chain m ≡ true
      → All IsClean l × All IsClean m
      → length l ≡ length m
      → head_of [] l ≡ head_of [] m
      → Collision ⊎ (l ≡ m)
  unfolding verify_chain
  verified_ledgers_agree l m v w clean n h =
      elim (chains_agree 0 [] [] l m (tt, tt) v w clean n h) [
        | inl c ↦ inl c
        | inr same ↦ inr same.1
      ]

  ledger_hash-moved :
      (n : ℕ) (kind subject detail prev : Str)
      → ledger_hash n kind (subject ++ 0 ∷ []) detail prev
        ≡ ledger_hash n kind subject (0 ∷ detail) prev
  unfolding ledger_hash ledger_bytes
  ledger_hash-moved n kind subject detail prev = rw append_assoc

  moved_nul :
      (i : ℕ) (prev : Str) (front back : List LedgerEntry) (e : LedgerEntry) (subject : Str)
      → e.subject ≡ subject ++ 0 ∷ []
      → verify_from i prev (front ++ e ∷ back)
        ≡ verify_from i prev (front ++ record e { subject = subject; detail = 0 ∷ e.detail } ∷ back)
  unfolding verify_from
  moved_nul i prev [] back e subject h =
      cc (h, ledger_hash-moved e.seq e.kind subject e.detail e.prev_hash)
  moved_nul i prev (f ∷ front) back e subject h =
      cc (moved_nul (suc i) f.hash front back e subject h)

  -- The NUL between subject and detail belongs to neither: an entry whose subject ends in NUL and
  -- the entry with that NUL moved to the front of the detail differ, and a chain with the one in
  -- place of the other verifies just the same.
  pub verify_chain_moved_nul :
      (front back : List LedgerEntry) (e : LedgerEntry) (subject : Str)
      → e.subject ≡ subject ++ 0 ∷ []
      → let e' = record e { subject = subject; detail = 0 ∷ e.detail } in
        (e ≢ e') × (verify_chain (front ++ e ∷ back) ≡ verify_chain (front ++ e' ∷ back))
  unfolding verify_chain
  verify_chain_moved_nul front back e subject h = (
    λ q. omega (arith, ap (λ (x : LedgerEntry). length x.detail) q),
    moved_nul 0 [] front back e subject h,
  )
