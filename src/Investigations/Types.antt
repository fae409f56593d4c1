-- ===== src/Investigations/Types.antt =====
-- soc-frontend/src/types/index.ts: the platform types of alerts and investigations.
use homelabs_siem_soar.Prelude.{ℕ, Option, List}
use Prim.Native.String.{String}

pub record Alert : Type 0 where
  pub id : String
  pub kind : String  -- `type`
  pub severity : ℕ

pub data Risk : Type 0 where
  read_only low_impact_write high_impact_write destructive : Risk

pub record ActionInfo : Type 0 where
  pub action : String
  pub target : String
  pub justification : String
  pub risk : Risk

pub record LogEntry : Type 0 where
  pub agent : String
  pub message : String
  pub confidence : ℕ

pub data NodeStatus : Type 0 where
  success running failed : NodeStatus

pub record GraphNode : Type 0 where
  pub id : String
  pub label : String
  pub kind : Option String  -- `type`
  pub properties : Option String
  pub status : NodeStatus

pub record GraphEdge : Type 0 where
  pub source_id : String
  pub target_id : String
  pub relation : String

-- `details` is flattened into its two lists.
pub record InvestigationData : Type 0 where
  pub nodes : List GraphNode
  pub edges : List GraphEdge
  pub source_ip : Option String
  pub conversation_log : List LogEntry
  pub proposed_actions : List ActionInfo
