-- ===== src/Blueprint/Schema.antt =====
-- packages/shared/src/schemas/blueprint.ts: a blueprint after its validation, the defaults filled in. A
-- resources object that is absent is one without fields; a float is the text that it prints.
use your_stack.Common.{ℕ, Bool, Option, List, String}
use your_stack.Common.Text.{Text}
use your_stack.Network.{Policy, Protocol}
use your_stack.Resources.{DatabaseEngine}

-- A finite number: a whole one from 0 on, one below 0, where `negative n` is -(n + 1), and one that is
-- not whole, by the text that it prints.
pub data Number : Type 0 where
  whole : ℕ → Number
  negative : ℕ → Number
  fraction : Text → Number

-- A number of megabytes, or a text with a unit.
pub data Quantity : Type 0 where
  number : Number → Quantity
  text : Text → Quantity

pub record ResourceLimits : Type 0 where
  pub cpu : Option Text
  pub memory : Option Quantity

pub data ScalingMetric : Type 0 where
  cpu memory rps latency : ScalingMetric

pub record BlueprintScaling : Type 0 where
  pub min : ℕ
  pub max : ℕ
  pub metric : ScalingMetric
  pub target : Text

pub record BlueprintApp : Type 0 where
  pub name : Text
  pub source : Option Text
  pub image : Option Text
  pub branch : Option Text
  pub framework : Option Text
  pub build : Option Text
  pub start : Option Text
  pub port : Option ℕ
  pub env : List (Text × Text)
  pub resources : ResourceLimits
  pub region : Option Text
  pub domains : List Text
  pub scaling : Option BlueprintScaling

pub record BlueprintDatabase : Type 0 where
  pub name : Text
  pub engine : DatabaseEngine
  pub version : Option Text
  pub storage : Option Quantity
  pub resources : ResourceLimits
  pub region : Option Text

pub record BlueprintBucket : Type 0 where
  pub name : Text
  pub is_public : Option Bool
  pub quota : Option Quantity
  pub region : Option Text

pub data FunctionRuntime : Type 0 where
  node20 python311 go122 bun1 : FunctionRuntime

pub record BlueprintFunction : Type 0 where
  pub name : Text
  pub runtime : FunctionRuntime
  pub handler : Option Text
  pub source : Option Text
  pub memory : Option Quantity

pub record BlueprintCron : Type 0 where
  pub name : Text
  pub schedule : Text
  pub image : Text
  pub command : Option Text

pub record BlueprintRule : Type 0 where
  pub allow : Bool
  pub protocol : Protocol
  pub port : Option String
  pub cidr : String

pub record BlueprintFirewall : Type 0 where
  pub name : Text
  pub nodes : Option (List Text)
  pub default_inbound : Policy
  pub rules : List BlueprintRule

pub data LbAlgorithm : Type 0 where
  round_robin least_conn ip_hash : LbAlgorithm

pub record BlueprintLoadBalancer : Type 0 where
  pub name : Text
  pub port : ℕ
  pub algorithm : Option LbAlgorithm
  pub targets : List Text
  pub domain : Option Text
  pub auto_https : Option Bool

pub record Blueprint : Type 0 where
  pub project : Text
  pub region : Option Text
  pub apps : List BlueprintApp
  pub databases : List BlueprintDatabase
  pub buckets : List BlueprintBucket
  pub functions : List BlueprintFunction
  pub cron : List BlueprintCron
  pub firewalls : List BlueprintFirewall
  pub load_balancers : List BlueprintLoadBalancer

pub data BlueprintParseResult : Type 0 where
  invalid : (errors : List Text) → BlueprintParseResult
  parsed : Blueprint → BlueprintParseResult

pub data ResourceKind : Type 0 where
  app database bucket function cron firewall load_balancer : ResourceKind

pub data PlanAction : Type 0 where
  create update noop : PlanAction

pub record BlueprintPlanItem : Type 0 where
  pub kind : ResourceKind
  pub name : Text
  pub action : PlanAction
