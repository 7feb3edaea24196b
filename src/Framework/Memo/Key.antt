-- ===== src/Framework/Memo/Key.antt =====
-- What a memo key identifies.
use srcport_substrate.Base.{
  ◌≡◌, refl, sym, ap, ◌∙◌, ◌⊎◌, inl, inr, [], ◌∷◌, ◌++◌, Str, Bytes, lit, append_assoc, arith,
}
use srcport_substrate.Base.Map.{Map}
use srcport_substrate.Kernel.Platform.{Platform}
use srcport_substrate.Kernel.Digest.Tamper.{IsNulFree, split_prefix, Collision, same_or_collide}
use srcport_substrate.Framework.Memo.{port_rows, key_input, memo_key}

-- Ports and artifact ids that hold no NUL.
abbrev pub AreNulFree : Map Str → Type 0
AreNulFree [] = Unit
AreNulFree ((port, id) ∷ rows) = (IsNulFree port × IsNulFree id) × AreNulFree rows

flat : (a b rest : Bytes) → (a ++ 0 ∷ (b ++ 0 ∷ [])) ++ rest ≡ a ++ 0 ∷ (b ++ 0 ∷ rest)
flat a b rest =
    append_assoc a (0 ∷ (b ++ 0 ∷ [])) rest ∙ ap (λ t. a ++ 0 ∷ t) (append_assoc b (0 ∷ []) rest)

nonempty : (a x rest : Bytes) → [] ≡ (a ++ 0 ∷ x) ++ rest → ⊥
nonempty [] x rest e = cc
nonempty (c ∷ a) x rest e = cc

port_rows-injective :
    (m n : Map Str) → AreNulFree m → AreNulFree n → port_rows m ≡ port_rows n → m ≡ n
port_rows-injective [] [] hm hn e = refl
port_rows-injective [] ((q, j) ∷ n) hm hn e = absurd (nonempty q _ _ e)
port_rows-injective ((p, i) ∷ m) [] hm hn e = absurd (nonempty p _ _ (sym e))
port_rows-injective ((p, i) ∷ m) ((q, j) ∷ n) hm hn e =
    let a =
      split_prefix p q _ _ hm.0.0 hn.0.0
        (sym (flat p i (port_rows m)) ∙ e ∙ flat q j (port_rows n)) in
    let b = split_prefix i j _ _ hm.0.1 hn.0.1 a.1 in
    let c = port_rows-injective m n hm.1 hn.1 b.1 in cc (a.0, b.0, c)

drop_front : (s x y : Bytes) → s ++ x ≡ s ++ y → x ≡ y
drop_front [] x y e = e
drop_front (c ∷ s) x y e = drop_front s x y (cc)

-- The four names that a key is made of, with its ports.
pub record KeyParts : Type 0 where
  pub module_name : Str
  pub module_version : Str
  pub module_digest : Str
  pub capability : Str
  pub inputs : Map Str

abbrev pub AreClean : KeyParts → Type 0
AreClean k =
    IsNulFree k.module_name
    × IsNulFree k.module_version
    × IsNulFree k.module_digest
    × IsNulFree k.capability
    × AreNulFree k.inputs

abbrev pub bytes_of : KeyParts → Bytes
bytes_of k = key_input k.module_name k.module_version k.module_digest k.capability k.inputs

key_input-injective : (k l : KeyParts) → AreClean k → AreClean l → bytes_of k ≡ bytes_of l → k ≡ l
unfolding key_input
key_input-injective k l hk hl e =
    let a = split_prefix k.module_name l.module_name _ _ hk.0 hl.0 e in
    let b = split_prefix k.module_version l.module_version _ _ hk.1 hl.1 a.1 in
    let c = split_prefix k.module_digest l.module_digest _ _ hk.2 hl.2 b.1 in
    let d = split_prefix k.capability l.capability _ _ hk.3 hl.3 c.1 in
    let r = port_rows-injective k.inputs l.inputs hk.4 hl.4 d.1 in
    ground (arith, a.0, b.0, c.0, d.0, r)

module _ ⦃p : Platform⦄ where
  abbrev pub key_of : KeyParts → Str
  key_of k = memo_key k.module_name k.module_version k.module_digest k.capability k.inputs

  -- When two memo keys agree and no name in either holds a NUL, they are of the same module,
  -- version, digest, capability and inputs, or SHA-256 has a collision.
  pub memo_key-injective :
      (k l : KeyParts) → AreClean k → AreClean l → key_of k ≡ key_of l → Collision ⊎ (k ≡ l)
  unfolding memo_key
  memo_key-injective k l hk hl e =
      elim (same_or_collide (bytes_of k) (bytes_of l) (drop_front (lit "sha256:") _ _ e)) [
        | inl c ↦ inl c
        | inr q ↦ inr (key_input-injective k l hk hl q)
      ]
