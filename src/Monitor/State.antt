-- ===== src/Monitor/State.antt =====
-- The state of `SystemMonitor` that processTree.go works on, with the types of its parts. Times are
-- nanoseconds, and the zero time is 0.
use kube_armor.Base.{Bool, List, ℕ}
use kube_armor.Base.GoMap.{GoMap}
use kube_armor.Base.Text.{Text}
use kube_armor.Bpflsm.Keys.{NsKey}

pub record PidNode : Type 0 where
  pub pid_id : ℕ
  pub mnt_id : ℕ
  pub host_ppid : ℕ
  pub host_pid : ℕ
  pub ppid : ℕ
  pub pid : ℕ
  pub uid : ℕ
  pub parent_exec_path : Text
  pub exec_path : Text
  pub source : Text
  pub args : Text
  pub exited : Bool
  pub exited_time : ℕ

abbrev pub PidMap : Type 0
PidMap = GoMap ℕ PidNode

-- `ActiveHostPidMap`: by container, then by host pid.
abbrev pub Active : Type 0
Active = GoMap Text PidMap

-- The fields of a system call's context that name processes.
pub record SyscallContext : Type 0 where
  pub host_ppid : ℕ
  pub host_pid : ℕ
  pub ppid : ℕ
  pub pid : ℕ
  pub uid : ℕ

pub record Visibility : Type 0 where
  pub file : Bool
  pub process : Bool
  pub network : Bool
  pub capabilities : Bool
  pub dns : Bool

pub record NsVisibility : Type 0 where
  pub ns_keys : List NsKey
  pub visible : Visibility

-- `NsMap`, `NamespacePidsMap` and `NsVisibilityMap`, the last with the contents of its maps.
pub record Tables : Type 0 where
  pub ns_map : GoMap NsKey Text
  pub namespace_pids : GoMap Text NsVisibility
  pub ns_visibility : GoMap NsKey Visibility

abbrev pub second : ℕ
second = 1_000_000_000
