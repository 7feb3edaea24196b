-- ===== src/Framework/Host/Named/Views.antt =====
-- What a host holds under names, with what its kernel knows, and how it grows.
use srcport_substrate.Base.{
  ◌≡◌, refl, ◌∙◌, true, some, Str, subst, Bool-cases, inl, inr, ◌==◌, eq_iff, is_empty, contains,
  arith,
}
use srcport_substrate.Base.Map
use srcport_substrate.Base.Map.{Map, lookup-insert, lookup-remove}
use srcport_substrate.Proto.{RequestContext}
use srcport_substrate.Kernel.Known.{
  Known, names_of, IsKept, IsKept-refl, IsKept-trans, IsKept-serve, names_of-append,
  contains-append,
}
use srcport_substrate.Kernel.Known
use srcport_substrate.Framework.Foreign.{Foreign}
use srcport_substrate.Framework.Outside.{Outside, ModulePlugin}
use srcport_substrate.Framework.Policy.{FrameworkPolicy}
use srcport_substrate.Framework.Host.{Host}
use srcport_substrate.Framework.Host.SideTables.{finish_run_storage}

module _ ⦃f : Foreign⦄ ⦃o : Outside⦄ where
  pub record View : Type 0 where
    pub ctx : RequestContext
    pub known : Known
    pub plugins : Map ModulePlugin
    pub policies : Map FrameworkPolicy

  abbrev pub view : Host → View
  view h = record {
    ctx = h.ctx;
    known = Known.known h.kernel;
    plugins = h.plugins;
    policies = h.run_policies;
  }

  pub record IsNamed (v : View) : Type 0 where
    pub plugins_known :
        (n : Str) (q : ModulePlugin)
        → Map.lookup n v.plugins ≡ some q
        → contains v.known.modules n ≡ true
    pub policies_known :
        (id : Str) (q : FrameworkPolicy)
        → Map.lookup id v.policies ≡ some q
        → Map.contains_key id v.known.runs ≡ true

  -- What a host says of a later one.
  pub record Follows (v w : View) : Type 0 where
    pub ctx_same : w.ctx ≡ v.ctx
    pub kernel_kept : IsKept v.known w.known
    pub named : is_empty v.ctx.request_key ≡ true → IsNamed v → IsNamed w

  pub Follows-refl : (v : View) → Follows v v
  Follows-refl v = record { ctx_same = refl; kernel_kept = IsKept-refl _; named = λ e n. n }

  pub Follows-trans : (v w x : View) → Follows v w → Follows w x → Follows v x
  Follows-trans v w x g k = record {
    ctx_same = k.ctx_same ∙ g.ctx_same;
    kernel_kept = IsKept-trans _ _ _ g.kernel_kept k.kernel_kept;
    named = λ e n. k.named (rw g.ctx_same e) (g.named e n);
  }

  -- A kernel that knows more.
  pub known-Follows : (v : View) (k : Known) → IsKept v.known k → Follows v (record v { known = k })
  known-Follows v k kept = record {
    ctx_same = refl;
    kernel_kept = kept;
    named = λ e n. record {
      plugins_known = λ m q l. kept.modules_kept m (n.plugins_known m q l);
      policies_known = λ id q l. kept.runs_kept id (n.policies_known id q l);
    };
  }

  pub finish-Follows :
      (run_id : Str) (h : Host) → Follows (view h) (view (finish_run_storage run_id h))
  unfolding finish_run_storage
  finish-Follows run_id h = record {
    ctx_same = refl;
    kernel_kept = IsKept-refl _;
    named = λ e n. record {
      plugins_known = n.plugins_known;
      policies_known =
          λ id q l. n.policies_known id q (ground (arith, lookup-remove run_id id h.run_policies));
    };
  }

  -- A policy for a run that the kernel knows.
  pub policy-Follows :
      (v w : View) (run_id : Str) (plan : FrameworkPolicy)
      → Follows v w
      → (is_empty v.ctx.request_key ≡ true → Map.contains_key run_id w.known.runs ≡ true)
      → Follows v (record w { policies = Map.insert run_id plan w.policies })
  policy-Follows v w run_id plan g here = record {
    ctx_same = g.ctx_same;
    kernel_kept = g.kernel_kept;
    named = λ e n. record {
      plugins_known = (g.named e n).plugins_known;
      policies_known = λ id q l. elim (Bool-cases (run_id == id)) [
        | inl same ↦
            subst (λ x. Map.contains_key x w.known.runs ≡ true) ((eq_iff run_id id).0 same) (here e)
        | inr other ↦
            (g.named e n).policies_known id q
              (ground (arith, lookup-insert run_id id plan w.policies))
      ];
    };
  }

  -- A plugin of a module that the kernel knows.
  pub plugin-Follows :
      (v : View) (k : Known) (name : Str) (plugin : ModulePlugin)
      → IsKept v.known k
      → contains k.modules name ≡ true
      → Follows v (record v { known = k; plugins = Map.insert name plugin v.plugins })
  plugin-Follows v k name plugin kept here = record {
    ctx_same = refl;
    kernel_kept = kept;
    named = λ e n. record {
      plugins_known = λ m q l. elim (Bool-cases (name == m)) [
        | inl same ↦ subst (λ x. contains k.modules x ≡ true) ((eq_iff name m).0 same) here
        | inr other ↦
            kept.modules_kept m
              (n.plugins_known m q (ground (arith, lookup-insert name m plugin v.plugins)))
      ];
      policies_known = λ id q l. kept.runs_kept id (n.policies_known id q l);
    };
  }
