-- ===== src/Framework/Host/Plugins.antt =====
-- The plugins that a host keeps.
use srcport_substrate.Base.{
  ◌≡◌, refl, sym, subst, ap, ◌∙◌, Bool, true, false, Option, none, some, List, Str, eq_iff,
  is_empty, Bool-cases, inl, inr, arith,
}
use srcport_substrate.Base.Map
use srcport_substrate.Base.Map.{Map}
use srcport_substrate.Proto.{ArtifactStorePolicy, ModuleManifest}
use srcport_substrate.Kernel.Platform.{Platform}
use srcport_substrate.Kernel.Registry
use srcport_substrate.Framework.Error.{FrameworkError, Result, ok, err, panic}
use srcport_substrate.Framework.Foreign.{Foreign}
use srcport_substrate.Framework.Outside.{Outside, ModulePlugin, Threads}
use srcport_substrate.Framework.Storage.{TableSchema}
use srcport_substrate.Framework.Host.{
  Host, H, lift, gets, modify, refuse_if, ask, kernel_call, ◌>>=◌, keep_schema, accept_plugin,
  register_plugin,
}
use srcport_substrate.Framework.Host.SideTables.{finish_run_storage}
use srcport_substrate.Framework.Host.Calls.{HostCall, host_serve}
use srcport_substrate.Framework.Host.Upholds.Rules.{IsUpheld, IsWholly}
use srcport_substrate.Framework.Host.Upholds.Starts.{begin_cut-R}
use srcport_substrate.Framework.Host.Upholds.{host_serve-R}

module _ ⦃f : Foreign⦄ ⦃o : Outside⦄ where
  -- The second map has the plugins of the first under their names.
  Stays : Map ModulePlugin → Map ModulePlugin → Type 0
  Stays m n =
      (name : Str) (plugin : ModulePlugin)
      → Map.lookup name m ≡ some plugin
      → Map.lookup name n ≡ some plugin

  Stays-refl : (m : Map ModulePlugin) → Stays m m
  unfolding Stays
  Stays-refl m name plugin h = h

  Stays-trans : (l m n : Map ModulePlugin) → Stays l m → Stays m n → Stays l n
  unfolding Stays
  Stays-trans l m n h k name plugin e = k name plugin (h name plugin e)

  Stays-insert :
      (m : Map ModulePlugin) (name : Str) (plugin : ModulePlugin)
      → Map.contains_key name m ≡ false
      → Stays m (Map.insert name plugin m)
  unfolding Stays
  Stays-insert m name plugin new other q h =
      let absent = Map.contains_key-none name m new in
      ground (arith, Map.lookup-insert name other plugin m, eq_iff name other, absent, h)

  -- What follows a result.
  at-run :
      {A B : Type 0} (r : Result A) (next : A → H B) (m : Map ModulePlugin) (h : Host)
      → Stays m h.plugins
      → ((a : A) → Stays m ((next a h).1).plugins)
      → Stays m (((lift r >>= next) h).1).plugins
  unfolding ◌>>=◌
  at-run (ok a) next m h e k = k a
  at-run (err x) next m h e k = e
  at-run panic next m h e k = e

  -- What follows a check.
  at-refuse_if :
      {B : Type 0} (b : Bool) (e : FrameworkError) (next : Unit {0} → H B) (h : Host)
      → (b ≡ false → Stays h.plugins ((next tt h).1).plugins)
      → Stays h.plugins (((refuse_if b e >>= next) h).1).plugins
  unfolding refuse_if ◌>>=◌
  at-refuse_if true e next h k = Stays-refl h.plugins
  at-refuse_if false e next h k = k refl

  plugins-keep_schema :
      (name : Str) (schema : Option TableSchema) (h : Host)
      → ((keep_schema name schema h).1).plugins ≡ h.plugins
  unfolding keep_schema ◌>>=◌ refuse_if
  plugins-keep_schema name none h = refl
  plugins-keep_schema name (some schema) h = elim (Bool-cases (is_empty schema.name)) [
    | inl e ↦ ground (arith, e)
    | inr e ↦ ground (arith, e)
  ]

  module _ ⦃p : Platform⦄ (policy : ArtifactStorePolicy) where
    accept_plugin-Stays :
        (manifest : ModuleManifest) (plugin : ModulePlugin) (h : Host)
        → Map.contains_key manifest.name h.plugins ≡ false
        → Stays h.plugins ((accept_plugin policy manifest plugin h).1).plugins
    unfolding accept_plugin ◌>>=◌ kernel_call modify
    accept_plugin-Stays manifest plugin h new =
        at-run (kernel_call (Registry.register_ctx manifest) h).0 _ h.plugins
          (kernel_call (Registry.register_ctx manifest) h).1 (Stays-refl h.plugins)
          (λ generation. Stays-insert h.plugins manifest.name plugin new)

    register_plugin-Stays :
        (plugin : ModulePlugin) (h : Host)
        → Stays h.plugins ((register_plugin policy plugin h).1).plugins
    unfolding register_plugin ◌>>=◌ ask gets
    register_plugin-Stays plugin h =
        let manifest = (plugin.manifest h.world).0 in
        let h1 : Host = record h { world = (plugin.manifest h.world).1 } in
        at-refuse_if (is_empty manifest.name) _ _ h1 λ named.
          at-refuse_if (Map.contains_key manifest.name h1.plugins) _ _ h1 λ new.
            let schema = (plugin.storage_schema h1.world).0 in
            let h2 : Host = record h1 { world = (plugin.storage_schema h1.world).1 } in
            let kept = plugins-keep_schema manifest.name schema h2 in
            at-run (keep_schema manifest.name schema h2).0 _ h.plugins
              (keep_schema manifest.name schema h2).1
              (subst (Stays h.plugins) (sym kept) (Stays-refl h.plugins))
              (λ u.
                subst
                  (λ m.
                    Stays m
                      ((accept_plugin policy manifest plugin
                          (keep_schema manifest.name schema h2).1).1
                        ).plugins)
                  kept
                  (accept_plugin-Stays manifest plugin (keep_schema manifest.name schema h2).1
                    (ap (Map.contains_key manifest.name) kept ∙ new)))

    Stays-IsUpheld : IsUpheld policy (λ h i. Stays h.plugins i.plugins)
    unfolding finish_run_storage
    Stays-IsUpheld = record {
      refl_R = λ h. Stays-refl h.plugins;
      trans_R = λ h i j. Stays-trans h.plugins i.plugins j.plugins;
      on_world = λ w h. Stays-refl h.plugins;
      on_call = λ c h. Stays-refl h.plugins;
      on_events = λ es h. Stays-refl h.plugins;
      on_storage = λ t h. Stays-refl h.plugins;
      on_tables = λ m h. Stays-refl h.plugins;
      on_schemas = λ m h. Stays-refl h.plugins;
      on_memo = λ m h. Stays-refl h.plugins;
      on_execute = λ h. Stays-refl h.plugins;
      on_hit = λ h. Stays-refl h.plugins;
      on_finish = λ run_id h. Stays-refl h.plugins;
    }

    Stays-IsWholly : IsWholly policy (λ h i. Stays h.plugins i.plugins)
    Stays-IsWholly = record {
      upheld = Stays-IsUpheld;
      on_plugin = λ plugin. record { at = register_plugin-Stays plugin };
      on_begin = begin_cut-R Stays-IsUpheld (λ m h. Stays-refl h.plugins);
    }

    module _ ⦃t : Threads⦄ where
      -- Whatever methods a program calls on a host, and whatever its plugins and threads return, a
      -- plugin that the host holds under a name is still the one under that name.
      pub plugins-host_serve :
          (cs : List HostCall) (h : Host) (name : Str) (plugin : ModulePlugin)
          → Map.lookup name h.plugins ≡ some plugin
          → Map.lookup name (host_serve policy cs h).plugins ≡ some plugin
      unfolding Stays
      plugins-host_serve cs h = host_serve-R Stays-IsWholly cs h
