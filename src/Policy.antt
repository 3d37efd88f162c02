-- ===== src/Policy.antt =====
-- KubeArmor/types/types.go: the security policies that the enforcer and the feeder read. A text is
-- the list of its bytes; a severity is a natural number, as the policy schema bounds it below.
use Prim.Native.Nat.{ℕ}
use mathlib.Core.Bool.{Bool}
use mathlib.Core.List.{List, []}
use kube_armor.Base.GoMap.{GoMap}
use kube_armor.Base.Text.{Text, codes}

-- The two actions that a rule is enforced for.
unfoldable pub allow : Text
allow = codes "Allow"

unfoldable pub block : Text
block = codes "Block"

pub record MatchExpressionType : Type 0 where
  pub key : Text
  pub operator : Text
  pub values : List Text

-- Without the labels, which become identities when the policy is created.
pub record SelectorType : Type 0 where
  pub match_expressions : List MatchExpressionType
  pub containers : List Text
  pub identities : List Text
  pub match_exp_identities : List Text
  pub non_identities : List Text
  pub namespace_list : List Text

-- The selector of a policy that sets nothing.
abbrev pub no_selector : SelectorType
no_selector = record {
  match_expressions = [];
  containers = [];
  identities = [];
  match_exp_identities = [];
  non_identities = [];
  namespace_list = [];
}

pub record MatchSourceType : Type 0 where
  pub path : Text

pub record ProcessPathType : Type 0 where
  pub path : Text
  pub exec_name : Text
  pub owner_only : Bool
  pub from_source : List MatchSourceType
  pub allowed_args : List Text
  pub severity : ℕ
  pub tags : List Text
  pub message : Text
  pub action : Text

pub record ProcessDirectoryType : Type 0 where
  pub directory : Text
  pub recursive : Bool
  pub owner_only : Bool
  pub from_source : List MatchSourceType
  pub severity : ℕ
  pub tags : List Text
  pub message : Text
  pub action : Text

pub record ProcessPatternType : Type 0 where
  pub pattern_text : Text
  pub owner_only : Bool
  pub severity : ℕ
  pub tags : List Text
  pub message : Text
  pub action : Text

-- The rule groups carry defaults of their own for the fields below, which the policy watcher has
-- copied into the rules before the code modelled here reads them.
pub record ProcessType : Type 0 where
  pub match_paths : List ProcessPathType
  pub match_directories : List ProcessDirectoryType
  pub match_patterns : List ProcessPatternType

pub record FilePathType : Type 0 where
  pub path : Text
  pub read_only : Bool
  pub owner_only : Bool
  pub from_source : List MatchSourceType
  pub severity : ℕ
  pub tags : List Text
  pub message : Text
  pub action : Text

pub record FileDirectoryType : Type 0 where
  pub directory : Text
  pub read_only : Bool
  pub recursive : Bool
  pub owner_only : Bool
  pub from_source : List MatchSourceType
  pub severity : ℕ
  pub tags : List Text
  pub message : Text
  pub action : Text

pub record FilePatternType : Type 0 where
  pub pattern_text : Text
  pub read_only : Bool
  pub owner_only : Bool
  pub severity : ℕ
  pub tags : List Text
  pub message : Text
  pub action : Text

pub record FileType : Type 0 where
  pub match_paths : List FilePathType
  pub match_directories : List FileDirectoryType
  pub match_patterns : List FilePatternType

pub record NetworkProtocolType : Type 0 where
  pub protocol : Text
  pub from_source : List MatchSourceType
  pub severity : ℕ
  pub tags : List Text
  pub message : Text
  pub action : Text

pub record CapabilitiesCapabilityType : Type 0 where
  pub capability : Text
  pub from_source : List MatchSourceType
  pub severity : ℕ
  pub tags : List Text
  pub message : Text
  pub action : Text

pub record SyscallFromSourceType : Type 0 where
  pub path : Text
  pub dir : Text
  pub recursive : Bool

pub record SyscallMatchType : Type 0 where
  pub syscalls : List Text
  pub from_source : List SyscallFromSourceType
  pub severity : ℕ
  pub tags : List Text
  pub message : Text

pub record SyscallMatchPathType : Type 0 where
  pub path : Text
  pub recursive : Bool
  pub syscalls : List Text
  pub from_source : List SyscallFromSourceType
  pub severity : ℕ
  pub tags : List Text
  pub message : Text

pub record SyscallsType : Type 0 where
  pub match_syscalls : List SyscallMatchType
  pub match_paths : List SyscallMatchPathType

-- `network` and `capabilities` are the rule lists `Network.MatchProtocols` and
-- `Capabilities.MatchCapabilities`.
pub record SecuritySpec : Type 0 where
  pub selector : SelectorType
  pub process : ProcessType
  pub file : FileType
  pub network : List NetworkProtocolType
  pub capabilities : List CapabilitiesCapabilityType
  pub syscalls : SyscallsType
  pub app_armor : Text

pub record SecurityPolicy : Type 0 where
  pub metadata : GoMap Text Text
  pub spec : SecuritySpec

pub record DefaultPosture : Type 0 where
  pub file_action : Text
  pub network_action : Text
  pub capabilities_action : Text
