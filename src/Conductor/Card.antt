-- ===== src/Conductor/Card.antt =====
-- src/primal_ai/conductor/_card.py, _agent.py and _delegation.py. The data that no code of the
-- library reads (descriptions, versions, metadata, output schemas) and the times and the id of a
-- delegation are left out.
use primal_core.Base.{ℕ, String, Bool, Option, List, Outcome, str_eq, any, contains}
use primal_core.Base.Value.{Value}
use primal_core.Schema.{Schema, Error}

pub record Capability : Type 0 where
  pub name : String
  pub input_schema : Option Schema
  pub tags : List String

pub record AgentCard : Type 0 where
  pub name : String
  pub capabilities : List Capability

unfoldable pub has_capability : String → AgentCard → Bool
has_capability name card = any (λ c. str_eq c.name name) card.capabilities

unfoldable pub has_tag : String → AgentCard → Bool
has_tag tag card = any (λ c. contains tag c.tags) card.capabilities

-- An agent works on a state `S`; its call also says how many milliseconds it takes.
pub record Agent (S : Type 0) : Type 0 where
  pub name : String
  pub card : AgentCard
  pub invoke : Value → S → (Outcome Value × ℕ) × S

pub data DelegationStatus : Type 0 where
  success failed refused timeout : DelegationStatus

-- The texts of a result's reason, with what they print; `agent_raised` is the class and message.
pub data DelegationReason : Type 0 where
  no_target : DelegationReason
  no_agent_advertises : String → DelegationReason
  input_rejected : Error → DelegationReason
  agent_raised : String → String → DelegationReason
  did_not_return_within : ℕ → DelegationReason

pub record DelegationResult : Type 0 where
  pub from_agent : Option String
  pub to_agent : String
  pub capability : Option String
  pub task : String
  pub input : Value
  pub output : Value
  pub status : DelegationStatus
  pub reason : Option DelegationReason
