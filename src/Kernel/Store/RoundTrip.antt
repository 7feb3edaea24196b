-- ===== src/Kernel/Store/RoundTrip.antt =====
-- Reading artifacts back, and repeating a put.
use srcport_substrate.Base.{
  ◌≡◌, refl, sym, ap, ◌∙◌, false, inl, inr, none, some, ◌∷◌, ◌++◌, List, Str, lit, eq_refl,
  is_empty, arith, Bool-cases,
}
use srcport_substrate.Base.Int.{ℤ}
use srcport_substrate.Base.Map
use srcport_substrate.Base.Map.{Map, lookup-insert, contains_key-none, contains_key-some}
use srcport_substrate.Proto.{Artifact, ArtifactRef, ArtifactStorePolicy, RequestContext}
use srcport_substrate.Kernel.Platform.{Platform}
use srcport_substrate.Kernel.Error.{ok}
use srcport_substrate.Kernel.Digest.{artifact_id_of}
use srcport_substrate.Kernel.State.{
  State, IdempotentResult, artifact_ref, ◌>>=◌, check_deadline, idempotency_key, idempotent_get,
  idempotent_put, append_locked,
}
use srcport_substrate.Kernel.Api.{Call, serve}
use srcport_substrate.Kernel.Stores.{replies-serve, artifacts-serve}
use srcport_substrate.Kernel.Store.{
  validate_artifact_content, store_artifact, put_fresh, put_unless_replayed, put_artifact_ctx,
  get_artifact,
}

module _ ⦃p : Platform⦄ where
  -- What a successful `put_fresh` returns, and the state that it leaves.
  put_fresh_lem :
      (a : Artifact) (ctx : RequestContext) (s t : State) (r : ArtifactRef)
      → put_fresh a ctx s ≡ (ok r, t)
      → (r ≡ record { id = artifact_id_of a })
        × (t
            ≡ idempotent_put
                (lit "put_artifact")
                ctx
                (artifact_ref r)
                (store_artifact (record a { id = artifact_id_of a }) s))
  unfolding put_fresh ◌>>=◌
  put_fresh_lem a ctx s t r h = ground arith

  put_first :
      (policy : ArtifactStorePolicy) (now : ℤ) (a : Artifact) (ctx : RequestContext) (s : State)
      → check_deadline now ctx ≡ ok tt
      → validate_artifact_content a policy ≡ ok tt
      → idempotent_get (lit "put_artifact") ctx s ≡ none
      → put_artifact_ctx policy now a ctx s ≡ put_fresh a ctx s
  unfolding put_artifact_ctx put_unless_replayed ◌>>=◌
  put_first policy now a ctx s d c u = rw (d, c, u)

  lookup-store_artifact :
      (a : Artifact) (s : State)
      → (b : Artifact) × (Map.lookup a.id (store_artifact a s).artifacts ≡ some b)
        × ((Map.lookup a.id s.artifacts ≡ none → b ≡ a))
  unfolding store_artifact append_locked
  lookup-store_artifact a s = elim (Bool-cases (Map.contains_key a.id s.artifacts)) [
    | inl old ↦
        (let k = contains_key-some a.id s.artifacts old in rw old (k.0, k.1, λ e. cc (k.1, e)))
    | inr new ↦ rw new (a, rw lookup-insert (rw eq_refl refl), λ e. refl)
  ]

  artifacts-reply :
      (op : Str) (ctx : RequestContext) (v : IdempotentResult) (s : State)
      → (idempotent_put op ctx v s).artifacts ≡ s.artifacts
  unfolding idempotent_put
  artifacts-reply op ctx v s = ground arith

  key_of :
      (op : Str) (ctx : RequestContext)
      → is_empty ctx.request_key ≡ false
      → (k : Str) × (idempotency_key op ctx ≡ some k)
  unfolding idempotency_key
  key_of op ctx h = (op ++ (0 ∷ (ctx.caller ++ (0 ∷ ctx.request_key))), rw h)

  lookup-or_insert :
      (k : Str) (v : IdempotentResult) (m : Map IdempotentResult)
      → Map.lookup k m ≡ none
      → Map.lookup k (Map.or_insert k v m) ≡ some v
  unfolding Map.or_insert Map.contains_key
  lookup-or_insert k v m h = ground (arith, lookup-insert k k v m, eq_refl k)

  idempotent_get-key :
      (op : Str) (ctx : RequestContext) (s : State) (k : Str)
      → idempotency_key op ctx ≡ some k
      → idempotent_get op ctx s ≡ Map.lookup k s.idempotency
  unfolding idempotent_get
  idempotent_get-key op ctx s k h = ground arith

  idempotent_put-key :
      (op : Str) (ctx : RequestContext) (v : IdempotentResult) (s : State) (k : Str)
      → idempotency_key op ctx ≡ some k
      → (idempotent_put op ctx v s).idempotency ≡ Map.or_insert k v s.idempotency
  unfolding idempotent_put
  idempotent_put-key op ctx v s k h = ground arith

  reply-cached :
      (op : Str) (ctx : RequestContext) (v : IdempotentResult) (s : State) (k : Str)
      → idempotency_key op ctx ≡ some k
      → Map.lookup k s.idempotency ≡ none
      → Map.lookup k (idempotent_put op ctx v s).idempotency ≡ some v
  reply-cached op ctx v s k h e =
      rw (idempotent_put-key op ctx v s k h) (lookup-or_insert k v s.idempotency e)

  replies-store_artifact :
      (a : Artifact) (s : State) → (store_artifact a s).idempotency ≡ s.idempotency
  unfolding store_artifact append_locked
  replies-store_artifact a s = ground arith

  replayed :
      (policy : ArtifactStorePolicy) (now : ℤ) (a : Artifact) (ctx : RequestContext) (u : State)
      (r : ArtifactRef) (k : Str)
      → check_deadline now ctx ≡ ok tt
      → validate_artifact_content a policy ≡ ok tt
      → idempotency_key (lit "put_artifact") ctx ≡ some k
      → Map.lookup k u.idempotency ≡ some (artifact_ref r)
      → put_artifact_ctx policy now a ctx u ≡ (ok r, u)
  unfolding put_artifact_ctx put_unless_replayed ◌>>=◌
  replayed policy now a ctx u r k d c key found =
      rw (d, c, idempotent_get-key (lit "put_artifact") ctx u k key ∙ found)

  get-found :
      (r : ArtifactRef) (s : State) (b : Artifact)
      → Map.lookup r.id s.artifacts ≡ some b
      → get_artifact r s ≡ (ok b, s)
  unfolding get_artifact ◌>>=◌
  get-found r s b h = rw h

  -- A put of valid content, in time, of an artifact that is not stored yet and with a request key
  -- not used before, that returns a ref: the ref is the address of the artifact's traits, and
  -- whatever is called afterwards, `get_artifact` returns the artifact that was put, with that id,
  -- and changes nothing.
  pub get-put_artifact :
      (policy : ArtifactStorePolicy) (now : ℤ) (a : Artifact) (ctx : RequestContext) (s t : State)
      (r : ArtifactRef) (cs : List Call)
      → check_deadline now ctx ≡ ok tt
      → validate_artifact_content a policy ≡ ok tt
      → idempotent_get (lit "put_artifact") ctx s ≡ none
      → Map.lookup (artifact_id_of a) s.artifacts ≡ none
      → put_artifact_ctx policy now a ctx s ≡ (ok r, t)
      → (r.id ≡ artifact_id_of a)
        × (get_artifact r (serve policy cs t)
            ≡ (ok (record a { id = artifact_id_of a }), serve policy cs t))
  get-put_artifact policy now a ctx s t r cs d c u new h =
      let q = put_fresh_lem a ctx s t r (sym (put_first policy now a ctx s d c u) ∙ h) in
      let l = lookup-store_artifact (record a { id = artifact_id_of a }) s in
      let m : Map.lookup (artifact_id_of a) t.artifacts ≡ some l.0 =
        rw (q.1, artifacts-reply) l.1 in
      let n = artifacts-serve policy cs t (artifact_id_of a) l.0 m in
      (ap (λ (x : ArtifactRef). x.id) q.0, get-found r _ _ (rw q.0 (rw (← l.2 new) n)))

  -- A first put under a non-empty request key that returned a ref: the same put again, in time and
  -- after any other calls, returns the same ref and changes nothing.
  pub put_artifact_again :
      (policy : ArtifactStorePolicy) (now later : ℤ) (a : Artifact) (ctx : RequestContext)
      (s t : State) (r : ArtifactRef) (cs : List Call)
      → is_empty ctx.request_key ≡ false
      → check_deadline now ctx ≡ ok tt
      → check_deadline later ctx ≡ ok tt
      → validate_artifact_content a policy ≡ ok tt
      → idempotent_get (lit "put_artifact") ctx s ≡ none
      → put_artifact_ctx policy now a ctx s ≡ (ok r, t)
      → put_artifact_ctx policy later a ctx (serve policy cs t) ≡ (ok r, serve policy cs t)
  put_artifact_again policy now later a ctx s t r cs full d d' c u h =
      let q = put_fresh_lem a ctx s t r (sym (put_first policy now a ctx s d c u) ∙ h) in
      let key = key_of (lit "put_artifact") ctx full in
      let stored = store_artifact (record a { id = artifact_id_of a }) s in
      let cached : Map.lookup key.0 t.idempotency ≡ some (artifact_ref r) = rw q.1 (
        reply-cached (lit "put_artifact") ctx (artifact_ref r) stored key.0 key.1 (
          rw replies-store_artifact
            (sym (idempotent_get-key (lit "put_artifact") ctx s key.0 key.1) ∙ u))) in
      replayed policy later a ctx _ r key.0 d' c key.1 (replies-serve policy cs t key.0 _ cached)
