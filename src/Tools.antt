-- ===== src/Tools.antt =====
-- tools/permissions.py: which agent may call which tool.
pub mod Granted
mod Examples
use neutail.Base.{
  ℕ, zero, suc, ◌+◌, ◌-◌, ◌*◌, ◌/◌, ◌%◌, ◌≤◌, ◌<◌, String, ◌≡◌, refl, sym, ap, ◌∙◌, ◌≢◌, ◌↔◌, ◌⊎◌,
  inl, inr, Bool, true, false, not, ◌&&◌, ◌||◌, Option, none, some, List, [], ◌∷◌, ◌++◌, map, arith,
  ltb, leb, nat_beq, if◌then◌else◌, leb→le, le→leb, Bool-cases, Option-cases, is_some, or_default,
  Eq, ◌==◌, nat_eq, string_eq, pair_eq, beq_self, Outcome, ok, raised, ◌>>=◌, ◌>>◌, require,
  or_raise,
}
use neutail.Base.Lists.{contains, select}

-- `AgentName`, in the order of the enum
pub data AgentName : Type 0 where
  profiling discovery fit upsell : AgentName

abbrev pub agent_text : AgentName → String
agent_text profiling = "profiling_agent"
agent_text discovery = "discovery_agent"
agent_text fit = "fit_agent"
agent_text upsell = "upsell_agent"

-- `Union[AgentName, str]`
pub data Agent : Type 0 where
  member : AgentName → Agent
  name : String → Agent

abbrev pub agents : List AgentName
agents = profiling ∷ discovery ∷ fit ∷ upsell ∷ []

-- `ValueError` of an unknown agent, and `ToolPermissionError`
pub data Error : Type 0 where
  unknown_agent : Error
  not_permitted : AgentName → String → Error

customer_profile_tools : List String
customer_profile_tools =
    "customer_exists" ∷ "customer_get_master" ∷ "customer_get_preferences"
    ∷ "customer_get_profile_facts" ∷ []

loyalty_tools : List String
loyalty_tools =
    "customer_get_loyalty_profile" ∷ "customer_get_loyalty_transactions"
    ∷ "customer_get_loyalty_summary" ∷ []

profile_agent_tools : List String
profile_agent_tools =
    "get_customer_profile" ∷ "get_purchase_history" ∷ "get_return_history" ∷ "get_loyalty_profile"
    ∷ "get_engagement_summary" ∷ []

discovery_agent_tools : List String
discovery_agent_tools =
    "search_products" ∷ "get_product_details" ∷ "check_inventory" ∷ "semantic_product_search" ∷ []

fit_agent_tools : List String
fit_agent_tools =
    "get_product_details" ∷ "fit_get_profile" ∷ "fit_build_evidence" ∷ "fit_retrieve_similar_cases"
    ∷ []

upsell_tools : List String
upsell_tools =
    "evaluate_upsell" ∷ "record_upsell_event" ∷ "upsell_get_recent_behavior"
    ∷ "upsell_get_behavior_summary" ∷ "upsell_get_service_engagement"
    ∷ "upsell_record_service_event" ∷ "upsell_evaluate" ∷ "upsell_is_suppressed"
    ∷ "upsell_get_candidate_services" ∷ "upsell_record_decision" ∷ []

upsell_agent_required_tools : List String
upsell_agent_required_tools =
    "get_customer_profile" ∷ "get_loyalty_profile" ∷ "get_engagement_summary" ∷ "evaluate_upsell"
    ∷ "record_upsell_event" ∷ []

-- `AGENT_TOOL_ALLOWLIST`
pub allowlist : AgentName → List String
unfolding customer_profile_tools loyalty_tools profile_agent_tools discovery_agent_tools
    fit_agent_tools upsell_tools upsell_agent_required_tools
allowlist profiling = profile_agent_tools
allowlist discovery = discovery_agent_tools
allowlist fit = fit_agent_tools
allowlist upsell =
    customer_profile_tools
    ++ loyalty_tools
    ++ upsell_agent_required_tools
    ++ "get_product_details" ∷ "customer_get_return_summary" ∷ "product_get" ∷ upsell_tools

-- An agent by its name, among those listed.
named : String → List AgentName → Outcome Error AgentName
named text [] = raised unknown_agent
named text (a ∷ rest) =
    let others = named text rest in if agent_text a == text then ok a else others

-- `normalize_agent`
pub normalize_agent : Agent → Outcome Error AgentName
unfolding named
normalize_agent (member a) = ok a
normalize_agent (name text) = named text agents

-- `can_call`
pub can_call : Agent → String → Outcome Error Bool
unfolding allowlist normalize_agent
can_call agent tool = normalize_agent agent >>= λ a. ok (contains tool (allowlist a))

-- `require_permission`
pub require_permission : Agent → String → Outcome Error (Unit {0})
unfolding normalize_agent can_call
require_permission agent tool = do
  a ← normalize_agent agent
  allowed ← can_call (member a) tool
  require allowed (not_permitted a tool)

-- `allowed_agents`
pub allowed_agents : String → List AgentName
unfolding allowlist
allowed_agents tool = select (λ a. contains tool (allowlist a)) agents

-- `allowed_tools`
pub allowed_tools : Agent → Outcome Error (List String)
unfolding allowlist normalize_agent
allowed_tools agent = normalize_agent agent >>= λ a. ok (allowlist a)
