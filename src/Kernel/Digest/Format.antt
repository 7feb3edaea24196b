-- ===== src/Kernel/Digest/Format.antt =====
-- The form of the ids that the kernel assigns, and `is_sha256_digest`.
use srcport_substrate.Base.{
  ℕ, ◌*◌, ◌/◌, ◌%◌, ◌<◌, ◌≡◌, refl, true, some, [], ◌∷◌, ◌++◌, Str, Bytes, lit, All, length, arith,
}
use srcport_substrate.Proto.{Artifact}
use srcport_substrate.Kernel.Platform.{Platform}
use srcport_substrate.Kernel.Digest.{
  hex, hex_digit, is_hex_digit, all_hex, strip_prefix, is_sha256_digest, check_digits, blob_id,
  artifact_id_of, artifact_canonical_bytes,
}

-- SHA-256 digests are 32 bytes.
pub record HasDigests (p : Platform) : Type 0 where
  pub digest_length : (x : Bytes) → length (p.sha256 x) ≡ 32
  pub digest_bytes : (x : Bytes) → All (λ b. b < 256) (p.sha256 x)

strip_prefix-append : (q s : Str) → strip_prefix q (q ++ s) ≡ some s
unfolding strip_prefix
strip_prefix-append [] s = refl
strip_prefix-append (c ∷ q) s = ground (arith, strip_prefix-append q s)

digit_ok : (d : ℕ) → d < 16 → is_hex_digit (hex_digit d) ≡ true
unfolding hex_digit is_hex_digit
digit_ok d h = ground arith

all_hex-hex : (b : Bytes) → All (λ x. x < 256) b → all_hex (hex b) ≡ true
unfolding all_hex hex
all_hex-hex [] h = refl
all_hex-hex (x ∷ b) h =
    rw (digit_ok (x / 16) (omega (arith, h.0)), digit_ok (x % 16) (omega arith)) (all_hex-hex b h.1)

length-hex : (b : Bytes) → length (hex b) ≡ 2 * length b
unfolding hex
length-hex [] = omega arith
length-hex (x ∷ b) = omega (arith, length-hex b)

digest_ok :
    (b : Bytes)
    → length b ≡ 32
    → All (λ x. x < 256) b
    → is_sha256_digest (lit "sha256:" ++ hex b) ≡ true
unfolding is_sha256_digest check_digits
digest_ok b n h =
    rw (strip_prefix-append (lit "sha256:") (hex b), all_hex-hex b h) (ground (arith, length-hex b))

module _ ⦃p : Platform⦄ where
  -- The ids of blobs and artifacts pass the check that the kernel makes of the digests in object
  -- refs, where SHA-256 returns 32 bytes.
  pub ids_are_digests :
      (payload : Bytes) (a : Artifact)
      → HasDigests p
      → (is_sha256_digest (blob_id payload) ≡ true) × (is_sha256_digest (artifact_id_of a) ≡ true)
  unfolding blob_id artifact_id_of
  ids_are_digests payload a d = (
    digest_ok _ (d.digest_length payload) (d.digest_bytes payload),
    digest_ok _ (d.digest_length (artifact_canonical_bytes a))
        (d.digest_bytes (artifact_canonical_bytes a)),
  )
