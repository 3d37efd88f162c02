-- ===== src/Monitor/Tests.antt =====
-- The theorems of the system monitor at concrete inputs, and runs of it.
use kube_armor.Base.{Option, ℕ, true, false, ◌≡◌, refl, [], ◌∷◌, none, some, if◌then◌else◌, ◌||◌}
use kube_armor.Base.Comparable.{nat_eq, text_beq, text_eq, ◌==◌}
use kube_armor.Base.GoMap.{Distinct, delete, get}
use kube_armor.Base.Text.{Text, codes, has_prefix}
use kube_armor.Bpflsm.Keys.{NsKey, ns_eq}
use kube_armor.Monitor.Cleanup.{clean_up, is_stale, sweep}
use kube_armor.Monitor.Cleanup.Sweep.{live, node_of-clean_up}
use kube_armor.Monitor.Namespaces.{
  Answers, add_container_id_to_ns_map, delete_container_id_from_ns_map, lists_key,
  lookup_container_id,
}
use kube_armor.Monitor.Namespaces.Keys.{keys_of, lists_key-add_container_id_to_ns_map}
use kube_armor.Monitor.Namespaces.Lookup.{delete_without_namespaces}
use kube_armor.Monitor.Paths.{get_exec_path-cached}
use kube_armor.Monitor.Paths.Nodes.{node_of}
use kube_armor.Monitor.State.{Active, PidNode, SyscallContext, Tables, Visibility}
use kube_armor.Monitor.Tree.{get_exec_path, is_full, path_from, remember_exec, usable}

abbrev node_at : ℕ → Text → PidNode
node_at pid path = record {
  pid_id = 0;
  mnt_id = 0;
  host_ppid = 1;
  host_pid = pid;
  ppid = 1;
  pid = pid;
  uid = 0;
  parent_exec_path = [];
  exec_path = path;
  source = path;
  args = [];
  exited = false;
  exited_time = 0;
}

abbrev bash : PidNode
bash = node_at 7 (codes "/bin/bash")

-- A shell that exited a second after the start.
abbrev exited_shell : PidNode
exited_shell = record bash { exited = true; exited_time = 1_000_000_000 }

-- Process 9, a child of process 7.
abbrev call : SyscallContext
call = record { host_ppid = 7; host_pid = 9; ppid = 1; pid = 3; uid = 0 }

abbrev shell_call : SyscallContext
shell_call = record call { host_ppid = 1; host_pid = 7 }

abbrev one_process : Active
one_process = (codes "web", (9, node_at 9 (codes "sleep")) ∷ []) ∷ []

abbrev procfs : ℕ → Option Text
procfs pid = if pid == 9 then some (codes "/bin/sleep") else none

abbrev no_procfs : ℕ → Option Text
no_procfs pid = none

node_of-clean_up_example :
    node_of
      (codes "web")
      7
      (clean_up {Log = ℕ}
        (λ pid. some true)
        10_000_000_000
        ((codes "web", (7, exited_shell) ∷ (9, bash) ∷ []) ∷ [])
        ((7, 1) ∷ (9, 2) ∷ [])).0
    ≡ live
        (λ pid. some true)
        10_000_000_000
        7
        (node_of (codes "web") 7 ((codes "web", (7, exited_shell) ∷ (9, bash) ∷ []) ∷ []))
unfolding Distinct get
node_of-clean_up_example =
    node_of-clean_up (λ pid. some true) 10_000_000_000
      ((codes "web", (7, exited_shell) ∷ (9, bash) ∷ []) ∷ []) ((7, 1) ∷ (9, 2) ∷ []) (codes "web")
      7 (refl, tt)

-- The exited shell goes with its log, and the process that is there stays.
run_clean_up :
    clean_up {Log = ℕ}
      (λ pid. some true)
      10_000_000_000
      ((codes "web", (7, exited_shell) ∷ (9, bash) ∷ []) ∷ [])
      ((7, 1) ∷ (9, 2) ∷ [])
    ≡ ((codes "web", (9, bash) ∷ []) ∷ [], (9, 2) ∷ [])
unfolding clean_up sweep is_stale delete
run_clean_up = refl

get_exec_path-cached_example :
    get_exec_path no_procfs
      (codes "web")
      call
      true
      (remember_exec procfs (codes "web") call (codes "/bin/sleep") one_process)
    ≡ (codes "/bin/sleep", remember_exec procfs (codes "web") call (codes "/bin/sleep") one_process)
unfolding get_exec_path path_from is_full has_prefix text_beq usable get
get_exec_path-cached_example =
    get_exec_path-cached procfs no_procfs (codes "web") call one_process (codes "/bin/sleep")
      (remember_exec procfs (codes "web") call (codes "/bin/sleep") one_process) true refl refl refl

abbrev web_ns : NsKey
web_ns = record { pid_ns = 11; mnt_ns = 12 }

abbrev db_ns : NsKey
db_ns = record { pid_ns = 21; mnt_ns = 22 }

abbrev shown : Visibility
shown = record { file = true; process = true; network = false; capabilities = false; dns = false }

-- One namespace with one container.
abbrev web_tables : Tables
web_tables = record {
  ns_map = (web_ns, codes "web") ∷ [];
  namespace_pids = (codes "prod", record { ns_keys = web_ns ∷ []; visible = shown }) ∷ [];
  ns_visibility = (web_ns, shown) ∷ [];
}

abbrev answers : Answers
answers = record {
  made = true;
  deleted = true;
  puts = record { file = true; process = true; network = true; capabilities = true; dns = true };
}

delete_without_namespaces_example :
    lookup_container_id web_ns (
      delete_container_id_from_ns_map answers
        (codes "web")
        (codes "prod")
        (record { pid_ns = 0; mnt_ns = 0 })
        web_tables)
    ≡ lookup_container_id web_ns web_tables
delete_without_namespaces_example =
    delete_without_namespaces answers (codes "web") (codes "prod")
      (record { pid_ns = 0; mnt_ns = 0 }) web_ns web_tables refl

lists_key-add_container_id_to_ns_map_example :
    lists_key web_ns (
      keys_of (codes "prod") (
        add_container_id_to_ns_map answers
          (codes "file")
          (codes "db")
          (codes "prod")
          db_ns
          web_tables))
    ≡ (db_ns == web_ns) || lists_key web_ns (keys_of (codes "prod") web_tables)
lists_key-add_container_id_to_ns_map_example =
    lists_key-add_container_id_to_ns_map answers (codes "prod") db_ns (codes "file") (codes "db")
      web_tables web_ns
