-- ===== src/Gateway/Tools.antt =====
-- The tools of the gateway and the roles that they are for (gateway/capabilities.py).
use aizim.Prelude.{
  ◌||◌, Bool, false, Option, none, some, List, [], ◌∷◌, String, same_text, if◌then◌else◌,
}
use aizim.Control.{
  AgentRole, role_value, research_conductor, literature_scout, boundary_mapper,
  conjecture_generator, novelty_auditor, formalizer, formal_planner, proof_explorer, lemma_inventor,
  counterexample_agent, learning_agent,
}

pub data GatewayTool : Type 0 where
  state_query schedule_propose evidence_query search_brokered evidence_submit candidate_submit
        audit_submit project_read lean_goal lean_multi_attempt lean_diagnostics alignment_submit
        formal_graph_read task_edge_submit document_apply contribution_submit knowledge_read
        trace_read annotation_submit state_append document_resolve_path lean_build lean_verify
        promotion_enqueue promotion_publish environment_approve capability_mint :
      GatewayTool

unfoldable pub tool_value : GatewayTool → String
tool_value state_query = "state.query"
tool_value schedule_propose = "schedule.propose"
tool_value evidence_query = "evidence.query"
tool_value search_brokered = "search.brokered"
tool_value evidence_submit = "evidence.submit"
tool_value candidate_submit = "candidate.submit"
tool_value audit_submit = "audit.submit"
tool_value project_read = "project.read"
tool_value lean_goal = "lean.goal"
tool_value lean_multi_attempt = "lean.multi_attempt"
tool_value lean_diagnostics = "lean.diagnostics"
tool_value alignment_submit = "alignment.submit"
tool_value formal_graph_read = "formal_graph.read"
tool_value task_edge_submit = "task_edge.submit"
tool_value document_apply = "document.apply"
tool_value contribution_submit = "contribution.submit"
tool_value knowledge_read = "knowledge.read"
tool_value trace_read = "trace.read"
tool_value annotation_submit = "annotation.submit"
tool_value state_append = "state.append"
tool_value document_resolve_path = "document.resolve_path"
tool_value lean_build = "lean.build"
tool_value lean_verify = "lean.verify"
tool_value promotion_enqueue = "promotion.enqueue"
tool_value promotion_publish = "promotion.publish"
tool_value environment_approve = "environment.approve"
tool_value capability_mint = "capability.mint"

-- `ROLE_CAPABILITIES`
unfoldable pub role_capabilities : AgentRole → List GatewayTool
role_capabilities research_conductor = state_query ∷ schedule_propose ∷ []
role_capabilities literature_scout = evidence_query ∷ search_brokered ∷ evidence_submit ∷ []
role_capabilities boundary_mapper = evidence_query ∷ evidence_submit ∷ []
role_capabilities conjecture_generator = candidate_submit ∷ []
role_capabilities novelty_auditor = evidence_query ∷ search_brokered ∷ audit_submit ∷ []
role_capabilities formalizer =
    project_read ∷ lean_goal ∷ lean_multi_attempt ∷ lean_diagnostics ∷ candidate_submit
    ∷ alignment_submit ∷ []
role_capabilities formal_planner = formal_graph_read ∷ task_edge_submit ∷ []
role_capabilities proof_explorer =
    project_read ∷ lean_goal ∷ lean_multi_attempt ∷ lean_diagnostics ∷ document_apply
    ∷ contribution_submit ∷ knowledge_read ∷ []
role_capabilities lemma_inventor =
    project_read ∷ lean_goal ∷ lean_multi_attempt ∷ lean_diagnostics ∷ document_apply
    ∷ contribution_submit ∷ knowledge_read ∷ []
role_capabilities counterexample_agent =
    project_read ∷ lean_goal ∷ lean_multi_attempt ∷ lean_diagnostics ∷ document_apply
    ∷ evidence_submit ∷ contribution_submit ∷ knowledge_read ∷ []
role_capabilities learning_agent =
    formal_graph_read ∷ knowledge_read ∷ trace_read ∷ annotation_submit ∷ []

all_tools : List GatewayTool
all_tools =
    state_query ∷ schedule_propose ∷ evidence_query ∷ search_brokered ∷ evidence_submit
    ∷ candidate_submit ∷ audit_submit ∷ project_read ∷ lean_goal ∷ lean_multi_attempt
    ∷ lean_diagnostics ∷ alignment_submit ∷ formal_graph_read ∷ task_edge_submit ∷ document_apply
    ∷ contribution_submit ∷ knowledge_read ∷ trace_read ∷ annotation_submit ∷ state_append
    ∷ document_resolve_path ∷ lean_build ∷ lean_verify ∷ promotion_enqueue ∷ promotion_publish
    ∷ environment_approve ∷ capability_mint ∷ []

all_roles : List AgentRole
all_roles =
    research_conductor ∷ literature_scout ∷ boundary_mapper ∷ conjecture_generator ∷ novelty_auditor
    ∷ formalizer ∷ formal_planner ∷ proof_explorer ∷ lemma_inventor ∷ counterexample_agent
    ∷ learning_agent ∷ []

tool_named : String → List GatewayTool → Option GatewayTool
unfolding tool_value
tool_named value [] = none
tool_named value (t ∷ ts) = if same_text (tool_value t) value then some t else tool_named value ts

role_named : String → List AgentRole → Option AgentRole
role_named value [] = none
role_named value (r ∷ rs) = if same_text (role_value r) value then some r else role_named value rs

-- `GatewayTool(value)`, which raises on a value that no tool has
unfoldable pub tool_of : String → Option GatewayTool
unfolding tool_named all_tools
tool_of value = tool_named value all_tools

-- `AgentRole(value)`
unfoldable pub role_of : String → Option AgentRole
unfolding role_named all_roles
role_of value = role_named value all_roles

-- `operation in advertised_tools(role)`
unfoldable pub has_tool : GatewayTool → List GatewayTool → Bool
unfolding tool_value
has_tool tool [] = false
has_tool tool (t ∷ ts) = same_text (tool_value t) (tool_value tool) || has_tool tool ts
