-- ===== src/Framework/Examples/Cuts.antt =====
-- The theorems on cuts, seeds and policies, applied to the pipeline of the kernel's examples.
use srcport_substrate.Base.{
  All, arith, ◌&&◌, eq_iff, ◌≡◌, ◌↔◌, refl, true, false, none, some, [], ◌∷◌, lit, all, any,
  contains, ◌==◌, utf8_sort, dedup,
}
use srcport_substrate.Base.Int.{pos}
use srcport_substrate.Proto.{NodeOutput, RunRequest, NamedArtifact, Capability}
use srcport_substrate.Kernel.Cycle.Order.{IsOrdered}
use srcport_substrate.Kernel.Validate.{edges_of}
use srcport_substrate.Kernel.Ready.{effective_firing, is_open_closure}
use srcport_substrate.Kernel.Examples.{pipeline, from_a, node_of, input_x, port_of}
use srcport_substrate.Kernel.Cycle
use srcport_substrate.Framework.Error
use srcport_substrate.Framework.Error.{ok}
use srcport_substrate.Framework.Reach.{reachable_from, transitive_predecessors, outgoing, incoming}
use srcport_substrate.Framework.Reach.Walk.{Walk}
use srcport_substrate.Framework.Reach.Preds.{searches_iff}
use srcport_substrate.Framework.Policy.{NodePlan, RunMode, FrameworkPolicy, stream_policy}
use srcport_substrate.Framework.Policy
use srcport_substrate.Framework.Policy.Compile.{
  effective_firing-started, started, wanted_firing, is_stream,
}
use srcport_substrate.Framework.Cut
use srcport_substrate.Framework.Cut.{
  AssemblyCut, SeedSpec, resolve_kept_nodes, partial_cut, materialize_cut, skipped_of, seed_of,
  seeded,
}
use srcport_substrate.Framework.Cut.Keep.{resolve_kept_nodes_lem, IsPlanned}
use srcport_substrate.Kernel.Assembly.{node_ids}
use srcport_substrate.Framework.Cut.Graph.{HasEnds, leads_to, has_node, materialize_cut_lem}
use srcport_substrate.Framework.Cut.Bindings.{
  partial_cut_lem, rebound, is_unbound, has_seed, has_crossing,
}
use srcport_substrate.Framework.Seeds.{validate_seeds_present}
use srcport_substrate.Framework.Seeds.Present.{is_provided, validate_seeds_present_iff}

searches_iff_example :
    ((contains (reachable_from pipeline (lit "a")) (lit "b") ≡ true)
      ↔ Walk (outgoing pipeline.bindings) (lit "a") (lit "b"))
    × ((contains (lit "a" ∷ transitive_predecessors pipeline (lit "a")) (lit "b") ≡ true)
        ↔ Walk (incoming pipeline.bindings) (lit "a") (lit "b"))
searches_iff_example = searches_iff pipeline (lit "a") (lit "b")

abbrev after_a : NodePlan
after_a = Policy.after (lit "a")

kept_b : resolve_kept_nodes pipeline after_a ≡ ok (lit "b" ∷ [])
unfolding resolve_kept_nodes Error.◌>>=◌ Error.ok_or ◌==◌ lit Cut.kept_by Cut.kept_after
    transitive_predecessors Cycle.targets Cut.left_after utf8_sort dedup
kept_b = refl

resolve_kept_nodes_lem_example :
    (t : NodeOutput) × (pipeline.terminal ≡ some t)
    × (contains (lit "b" ∷ []) t.node ≡ true)
    × ((contains (lit "b" ∷ []) (lit "b") ≡ true) ↔ IsPlanned pipeline after_a (lit "b"))
resolve_kept_nodes_lem_example =
    resolve_kept_nodes_lem pipeline after_a (lit "b" ∷ []) (lit "b") kept_b

-- The node `b` alone, with the output of `a` as a seed.
abbrev cut_b : AssemblyCut
unfolding seeded seed_of
cut_b = record {
  assembly = record pipeline { nodes = node_of (lit "b") ∷ []; bindings = seeded from_a ∷ [] };
  skipped = skipped_of (node_of (lit "a")) ∷ [];
  required_seeds = seed_of from_a ∷ [];
  kept_node_ids = lit "b" ∷ [];
}

partial_cut_b : partial_cut pipeline (lit "b" ∷ []) ≡ ok cut_b
unfolding partial_cut Error.◌>>=◌ Cut.cut_step ◌==◌ lit cut_b Cut.insert_seed
partial_cut_b = refl

partial_cut_lem_example :
    (cut_b.assembly.bindings ≡ rebound (lit "b" ∷ []) pipeline.bindings)
    × (any (is_unbound (lit "b" ∷ [])) pipeline.bindings ≡ false)
    × (has_seed (lit "a") (lit "out") cut_b.required_seeds
        ≡ has_crossing (lit "b" ∷ []) (lit "a") (lit "out") pipeline.bindings)
partial_cut_lem_example =
    partial_cut_lem pipeline (lit "b" ∷ []) cut_b (lit "a") (lit "out") partial_cut_b

materialize_b : materialize_cut pipeline after_a ≡ ok cut_b
unfolding materialize_cut Error.◌>>=◌ Cut.cut_to
materialize_b = rw kept_b partial_cut_b

pipeline_order : IsOrdered (edges_of pipeline.bindings) (lit "a" ∷ lit "b" ∷ [])
unfolding edges_of Cycle.targets ◌==◌ lit
pipeline_order = ((refl, tt), refl, (tt, refl, tt))

pipeline_listed : All (λ n. contains (lit "a" ∷ lit "b" ∷ []) n ≡ true) (node_ids pipeline.nodes)
unfolding ◌==◌ lit
pipeline_listed = (refl, (refl, tt))

pipeline_ends : HasEnds pipeline
unfolding edges_of Cycle.targets lit
pipeline_ends n m h = (
  ground (arith, eq_iff (98 ∷ []) m, eq_iff (97 ∷ []) n),
  ground (arith, eq_iff (98 ∷ []) m, eq_iff (97 ∷ []) n),
)

materialize_cut_lem_example :
    (leads_to cut_b.assembly (lit "a") (lit "b") ≡ (
      leads_to pipeline (lit "a") (lit "b")
      && (has_node cut_b.assembly (lit "a") && has_node cut_b.assembly (lit "b"))))
    × IsOrdered (edges_of cut_b.assembly.bindings) (lit "a" ∷ lit "b" ∷ [])
    × All (λ n. contains (lit "a" ∷ lit "b" ∷ []) n ≡ true) (node_ids cut_b.assembly.nodes)
materialize_cut_lem_example =
    materialize_cut_lem pipeline after_a cut_b (lit "a" ∷ lit "b" ∷ []) (lit "a") (lit "b")
      materialize_b pipeline_ends pipeline_order pipeline_listed

abbrev seed_x : NamedArtifact
seed_x = record { name = lit "x"; artifact = some (record { id = lit "seed" }) }

validate_seeds_present_iff_example :
    (validate_seeds_present cut_b (seed_x ∷ []) ≡ ok tt)
    ↔ (all (is_provided (seed_x ∷ [])) cut_b.required_seeds ≡ true)
validate_seeds_present_iff_example = validate_seeds_present_iff cut_b (seed_x ∷ [])

abbrev request : RunRequest
request = record {
  id = lit "r";
  assembly = some pipeline;
  inputs = input_x ∷ [];
  limits = none;
  policy = none;
  include_nodes = [];
}

abbrev copy : Capability
copy = record {
  name = lit "copy";
  inputs = port_of (lit "in") ∷ [];
  outputs = port_of (lit "out") ∷ [];
  firing = pos 1;
}

effective_firing-started_example :
    (effective_firing (started stream_policy request pipeline) (node_of (lit "a")) copy
      ≡ wanted_firing stream_policy.firing (lit "a") copy)
    × (is_open_closure (started stream_policy request pipeline) ≡ is_stream stream_policy.mode)
unfolding ◌==◌ lit
effective_firing-started_example =
    effective_firing-started stream_policy request pipeline pipeline (node_of (lit "a")) copy refl
      refl
