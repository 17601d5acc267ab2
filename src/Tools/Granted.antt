-- ===== src/Tools/Granted.antt =====
-- The ways to ask for a permission agree, and only the upsell agent may record.
use neutail.Base.{
  String, ◌≡◌, refl, ◌∙◌, ◌≢◌, ◌⊎◌, inl, inr, Bool, true, false, List, [], ◌∷◌, arith, Bool-cases,
  ◌==◌, nat_eq, string_eq, pair_eq, ok, raised,
}
use neutail.Base.Lists.{All, any, contains, select}
use neutail.Tools.{
  Agent, AgentName, agent_text, agents, allowlist, allowed_agents, allowed_tools, can_call,
  normalize_agent, named, require_permission, profiling, discovery, fit, upsell, member, name,
  unknown_agent, not_permitted,
}

-- `agent in allowed_agents(tool)`
abbrev pub is_among : AgentName → List AgentName → Bool
is_among a = any (λ b. agent_text b == agent_text a)

-- What the module says of an agent and a tool.
pub data Answer (agent : Agent) (tool : String) : Type 0 where
  permitted :
      (a : AgentName) (ts : List String)
      → normalize_agent agent ≡ ok a
      → can_call agent tool ≡ ok true
      → require_permission agent tool ≡ ok tt
      → is_among a (allowed_agents tool) ≡ true
      → allowed_tools agent ≡ ok ts
      → contains tool ts ≡ true
      → Answer agent tool
  refused :
      (a : AgentName) (ts : List String)
      → normalize_agent agent ≡ ok a
      → can_call agent tool ≡ ok false
      → require_permission agent tool ≡ raised (not_permitted a tool)
      → is_among a (allowed_agents tool) ≡ false
      → allowed_tools agent ≡ ok ts
      → contains tool ts ≡ false
      → Answer agent tool
  unknown :
      normalize_agent agent ≡ raised unknown_agent
      → can_call agent tool ≡ raised unknown_agent
      → require_permission agent tool ≡ raised unknown_agent
      → allowed_tools agent ≡ raised unknown_agent
      → Answer agent tool

is_among-select :
    (test : AgentName → Bool) (a : AgentName) → is_among a (select test agents) ≡ test a
is_among-select test profiling = ground arith
is_among-select test discovery = ground arith
is_among-select test fit = ground arith
is_among-select test upsell = ground arith

is_among-allowed :
    (a : AgentName) (tool : String) → is_among a (allowed_agents tool) ≡ contains tool (allowlist a)
unfolding allowed_agents
is_among-allowed a tool = is_among-select (λ b. contains tool (allowlist b)) a

named_inv :
    (text : String) (xs : List AgentName)
    → (named text xs ≡ raised unknown_agent) ⊎ ((a : AgentName) × (named text xs ≡ ok a))
unfolding named
named_inv text [] = inl refl
named_inv text (x ∷ xs) = elim (Bool-cases (agent_text x == text)) [
  | inl q ↦ inr (x, rw q refl)
  | inr q ↦ rw q (named_inv text xs)
]

normalize_agent_inv :
    (agent : Agent)
    → (normalize_agent agent ≡ raised unknown_agent)
      ⊎ ((a : AgentName) × (normalize_agent agent ≡ ok a))
unfolding normalize_agent
normalize_agent_inv (member a) = inr (a, refl)
normalize_agent_inv (name text) = named_inv text agents

-- For an agent and a tool, `can_call`, `require_permission`, `allowed_agents` and `allowed_tools` agree on whether
-- the agent may call the tool, and an unknown agent is refused by each that is given it.
pub can_call-Answer : (agent : Agent) (tool : String) → Answer agent tool
unfolding can_call require_permission allowed_tools
can_call-Answer agent tool = elim (normalize_agent_inv agent) [
  | inl e ↦ unknown e (rw e refl) (rw e refl) (rw e refl)
  | inr (a, e) ↦ elim (Bool-cases (contains tool (allowlist a))) [
    | inl q ↦
        permitted a (allowlist a) e (rw (e, q) refl) (rw (e, q) refl) (is_among-allowed a tool ∙ q)
          (rw e refl) q
    | inr q ↦
        refused a (allowlist a) e (rw (e, q) refl) (rw (e, q) refl) (is_among-allowed a tool ∙ q)
          (rw e refl) q
  ]
]

-- The tools that write.
abbrev pub recorders : List String
recorders = "record_upsell_event" ∷ "upsell_record_service_event" ∷ "upsell_record_decision" ∷ []

-- Only the upsell agent may call a tool that records.
pub can_call-recorders :
    (agent : Agent) (a : AgentName)
    → normalize_agent agent ≡ ok a
    → a ≢ upsell
    → All (λ tool. can_call agent tool ≡ ok false) recorders
unfolding can_call allowlist
can_call-recorders agent profiling e ne = (rw e refl, (rw e refl, (rw e refl, tt)))
can_call-recorders agent discovery e ne = (rw e refl, (rw e refl, (rw e refl, tt)))
can_call-recorders agent fit e ne = (rw e refl, (rw e refl, (rw e refl, tt)))
can_call-recorders agent upsell e ne = absurd (ne refl)
