-- ===== src/Feeder/State.antt =====
-- The state of `Feeder` that policyMatcher.go works on. The type of compiled patterns is a parameter.
use kube_armor.Base.{Bool, List, Option, false, [], ℕ}
use kube_armor.Base.GoMap.{GoMap}
use kube_armor.Base.Text.{Text}
use kube_armor.Policy.{DefaultPosture, SecurityPolicy}

pub record MatchPolicy (Regexp : Type 0) : Type 0 where
  pub policy_name : Text
  pub severity : Text
  pub tags : List Text
  pub message : Text
  pub source : Text
  pub operation : Text
  pub resource_type : Text
  pub resource : Text
  pub is_from_source : Bool
  pub owner_only : Bool
  pub read_only : Bool
  pub recursive : Bool
  pub regexp : Option Regexp
  pub native : Bool
  pub action : Text

-- The fields of an end point that the feeder reads.
pub record EndPoint : Type 0 where
  pub namespace_name : Text
  pub end_point_name : Text
  pub container_name : Text
  pub identities : List Text
  pub containers : List Text
  pub policy_enabled : ℕ
  pub security_policies : List SecurityPolicy
  pub default_posture : DefaultPosture

-- The fields of the node that the feeder reads.
pub record Node : Type 0 where
  pub node_name : Text
  pub policy_enabled : ℕ
  pub process_visibility : Bool
  pub file_visibility : Bool
  pub network_visibility : Bool
  pub capabilities_visibility : Bool

-- The fields of `GlobalCfg` that the policy matcher reads.
pub record Config : Type 0 where
  pub host : Text
  pub default_posture : DefaultPosture

pub record Feeder (Regexp : Type 0) : Type 0 where
  pub node : Node
  pub enforcer : Text
  pub security_policies : GoMap Text (List (MatchPolicy Regexp))
  pub default_postures : GoMap Text DefaultPosture

-- `KubeArmorPolicyEnabled` and `KubeArmorPolicyAudited`
unfoldable pub enabled : ℕ
enabled = 1

unfoldable pub audited : ℕ
audited = 2

-- The fields of a log that the functions modelled here read or set.
pub record Log : Type 0 where
  pub namespace_name : Text
  pub pod_name : Text
  pub container_id : Text
  pub uid : ℕ
  pub oid : ℕ
  pub parent_process_name : Text
  pub process_name : Text
  pub source : Text
  pub operation : Text
  pub resource : Text
  pub log_data : Text
  pub result : Text
  pub policy_enabled : ℕ
  pub process_visibility : Bool
  pub file_visibility : Bool
  pub network_visibility : Bool
  pub capabilities_visibility : Bool
  pub type_name : Text
  pub policy_name : Text
  pub severity : Text
  pub tags : Text
  pub a_tags : List Text
  pub message : Text
  pub enforcer : Text
  pub action : Text

-- `tp.Log{}`
abbrev pub empty_log : Log
empty_log = record {
  namespace_name = [];
  pod_name = [];
  container_id = [];
  uid = 0;
  oid = 0;
  parent_process_name = [];
  process_name = [];
  source = [];
  operation = [];
  resource = [];
  log_data = [];
  result = [];
  policy_enabled = 0;
  process_visibility = false;
  file_visibility = false;
  network_visibility = false;
  capabilities_visibility = false;
  type_name = [];
  policy_name = [];
  severity = [];
  tags = [];
  a_tags = [];
  message = [];
  enforcer = [];
  action = [];
}
