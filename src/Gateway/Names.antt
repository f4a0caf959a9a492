-- ===== src/Gateway/Names.antt =====
-- Roles and tools are found by their values, and the tools of a grant in its role.
use aizim.Prelude.{
  ◌≡◌, refl, ap, ◌∙◌, true, false, ◌||◌, some, List, [], ◌∷◌, same_text, arith, eq_iff, Bool-cases,
  inl, inr,
}
use aizim.Projections.{contains}
use aizim.Control.{
  AgentRole, role_value, research_conductor, literature_scout, boundary_mapper,
  conjecture_generator, novelty_auditor, formalizer, formal_planner, proof_explorer, lemma_inventor,
  counterexample_agent, learning_agent,
}
use aizim.Gateway.Tools.{
  GatewayTool, state_query, schedule_propose, evidence_query, search_brokered, evidence_submit,
  candidate_submit, audit_submit, project_read, lean_goal, lean_multi_attempt, lean_diagnostics,
  alignment_submit, formal_graph_read, task_edge_submit, document_apply, contribution_submit,
  knowledge_read, trace_read, annotation_submit, state_append, document_resolve_path, lean_build,
  lean_verify, promotion_enqueue, promotion_publish, environment_approve, capability_mint,
  tool_value, tool_of, role_of, has_tool,
}
use aizim.Gateway.Minting.{exceeds, tool_values}

pub role_of-role_value : (r : AgentRole) → role_of (role_value r) ≡ some r
unfolding role_of
role_of-role_value research_conductor = refl
role_of-role_value literature_scout = refl
role_of-role_value boundary_mapper = refl
role_of-role_value conjecture_generator = refl
role_of-role_value novelty_auditor = refl
role_of-role_value formalizer = refl
role_of-role_value formal_planner = refl
role_of-role_value proof_explorer = refl
role_of-role_value lemma_inventor = refl
role_of-role_value counterexample_agent = refl
role_of-role_value learning_agent = refl

pub tool_of-tool_value : (t : GatewayTool) → tool_of (tool_value t) ≡ some t
unfolding tool_of tool_value
tool_of-tool_value state_query = refl
tool_of-tool_value schedule_propose = refl
tool_of-tool_value evidence_query = refl
tool_of-tool_value search_brokered = refl
tool_of-tool_value evidence_submit = refl
tool_of-tool_value candidate_submit = refl
tool_of-tool_value audit_submit = refl
tool_of-tool_value project_read = refl
tool_of-tool_value lean_goal = refl
tool_of-tool_value lean_multi_attempt = refl
tool_of-tool_value lean_diagnostics = refl
tool_of-tool_value alignment_submit = refl
tool_of-tool_value formal_graph_read = refl
tool_of-tool_value task_edge_submit = refl
tool_of-tool_value document_apply = refl
tool_of-tool_value contribution_submit = refl
tool_of-tool_value knowledge_read = refl
tool_of-tool_value trace_read = refl
tool_of-tool_value annotation_submit = refl
tool_of-tool_value state_append = refl
tool_of-tool_value document_resolve_path = refl
tool_of-tool_value lean_build = refl
tool_of-tool_value lean_verify = refl
tool_of-tool_value promotion_enqueue = refl
tool_of-tool_value promotion_publish = refl
tool_of-tool_value environment_approve = refl
tool_of-tool_value capability_mint = refl

pub contains-tool_values :
    (t : GatewayTool) (ts : List GatewayTool)
    → contains (tool_value t) (tool_values ts) ≡ has_tool t ts
unfolding contains tool_values has_tool
contains-tool_values t [] = refl
contains-tool_values t (x ∷ ts) =
    ap (λ b. same_text (tool_value x) (tool_value t) || b) (contains-tool_values t ts)

has_tool-same :
    (u t : GatewayTool) (ts : List GatewayTool)
    → tool_value u ≡ tool_value t
    → has_tool u ts ≡ has_tool t ts
unfolding has_tool
has_tool-same u t [] e = refl
has_tool-same u t (x ∷ ts) e =
    ap (λ b. same_text (tool_value x) (tool_value u) || b) (has_tool-same u t ts e)
    ∙ ap (λ k. same_text (tool_value x) k || has_tool t ts) e

pub exceeds-allowed :
    (allowed : List GatewayTool) (t : GatewayTool) (ts : List GatewayTool)
    → exceeds allowed ts ≡ false
    → has_tool t ts ≡ true
    → has_tool t allowed ≡ true
unfolding exceeds has_tool
exceeds-allowed allowed t [] h m = ground arith
exceeds-allowed allowed t (x ∷ ts) h m =
    elim (Bool-cases (same_text (tool_value x) (tool_value t))) [
      | inl e ↦
          let same =
            has_tool-same x t allowed (ground (arith, eq_iff (tool_value x) (tool_value t))) in
          ground arith
      | inr e ↦ exceeds-allowed allowed t ts (ground arith) (ground arith)
    ]
