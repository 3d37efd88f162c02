-- ===== src/Lib.antt =====
-- KubeArmor: the decisions that its Go daemon makes before anything reaches the kernel or a log.
--
-- The program and this library
-- - A security policy (KubeArmor/types/types.go) names rules for processes, files, network
--   protocols, capabilities and system calls. `Policy` holds these types.
-- - KubeArmor/enforcer/bpflsm turns the policies of a container into entries of eBPF maps, which its
--   kernel programs read. `Bpflsm` models it: `Keys` and `Masks` the keys and values of the maps,
--   `Directory` the function dirtoMap, `RuleList` and its children the loops over the rules of
--   UpdateContainerRules and handleAllNetworkRule, `Fresh` the fresh rule set with
--   fuseProcAndFileRules, `Sync` resolveConflicts, resolveConflictsProcessRules and the writes to
--   the kernel map, `Enforcer` UpdateContainerRules as a whole and the functions of mapHelpers.go.
--   `Kernel` is the interface to the maps of cilium/ebpf.
-- - KubeArmor/core/kubeUpdate.go takes policies from Kubernetes and gives each end point those that
--   select it, with the matching of identities of KubeArmor/common/common.go. `Watcher` models it:
--   `Selectors` the matching and updateNamespaceListforCSP, `Create` CreateSecurityPolicy, `Points`
--   GetSecurityPolicies and UpdateSecurityPolicy, which hands end points to the feeder (the update
--   of `Feeder.Collect`) and to the enforcer, whose calls are noted, `Hosts`
--   ParseAndUpdateHostSecurityPolicy with UpdateHostSecurityPolicies, `Postures` the default
--   postures of namespaces, and `Visible` their visibility, on the tables of `Monitor.State`.
--   `Containers` is handlePolicyEvent of KubeArmor/core/unorchestratedUpdates.go, for containers
--   without Kubernetes; there an index out of range is a panic, the result none. reflect.DeepEqual,
--   regexp.CompilePOSIX and the namespaces of the cluster are arguments.
-- - KubeArmor/monitor/processTree.go keeps the tree of processes and the map from namespaces to
--   containers, with UpdateNsKeyMap of systemMonitor.go. `Monitor` models it: `State` the tables,
--   `Namespaces` the map from namespaces, `Tree` the process nodes and their paths, `Cleanup` one
--   round of the loop of CleanUpExitedHostPids. What /proc links to, whether signal 0 can be sent
--   and what the kernel answers, also to each Put of UpdateNsKeyMap, are arguments. The kernel's own
--   map BpfNsVisibilityMap is not kept. Times are nanoseconds. Where a range over NsMap may
--   find one of several keys, the model takes the first.
-- - KubeArmor/monitor/syscallParser.go decodes the arguments of a system call from the bytes that
--   the kernel sends. `Monitor.Parser` models it: `Reader` the reading of numbers and strings,
--   `Names` the names of numbers and flags, with the tables in `Requests`, `Sockets`, `Protocols`,
--   `Capabilities`, `Errors` and `Syscalls` (of syscalls_amd64.go), `Address` the socket addresses,
--   `Args` the arguments. Signed numbers are bit patterns. How net.IP prints an address of sixteen
--   bytes is an argument. The loop over an array of strings takes fuel, one more than the length
--   of the buffer, which read_strings-Run shows to be enough.
-- - KubeArmor/feeder/policyMatcher.go turns the policies of an end point into matches, and
--   compares them with logs. `Feeder` models its parts: `State` the matches and the feeder's
--   tables, `Names` the name tables and the action of a match, `NewMatch` newMatchPolicy,
--   `Collect` UpdateSecurityPolicies, `Host` UpdateHostSecurityPolicies, `Resources`
--   matchResources with getDirectoryPart, `Postures` UpdateDefaultPosture and setLogFields,
--   `Matched` UpdateMatchedPolicy. The type of compiled patterns, matching with them,
--   filepath.Match and regexp.Compile are parameters. In `Matched` an index out of range is a
--   panic, the result none: `Alerts` is what a match writes into a log, `Files`, `Shared`
--   (networks and capabilities) and `Syscalls` the cases of the switch, `Finish` what follows
--   the loop, `Loop` the whole function. `Base.Paths` and `Base.Decimal` are filepath.Dir and
--   strconv.Itoa; the digits take fuel, one more than the number, which number_from-itoa shows
--   to be enough.
-- How the model stands to the code
-- - A Go string or byte array is the list of its bytes. strings.ToUpper and ToLower are those of
--   ASCII. copy into an array is `copy`, cut off at the array's length.
-- - A Go map is an association list (`Base.GoMap`). A range loop over it is a recursion on the list
--   from its end; the theorems speak of what `get` finds, which does not depend on the order.
-- - The fields of RuleList that belong to one kind of rules, the map and the posture flag, are a
--   `RuleSection`.
-- - [2]uint16 is the record `Masks`; flags are numbers, `|` and `&` the native operations on bits.
-- - The kernel maps are a parameter with the documented laws of Put, Delete and Lookup. A Put may
--   fail, and is then logged and skipped as in the code; theorems about what the kernel holds
--   assume that the maps have room (`HasRoom`), and those about other containers that no two
--   namespaces lead to one inner map. An inner map has a handle, a store of inner maps by
--   handle stands for the file descriptors, and the result of ebpf.NewMap is an argument. A call
--   on a nil map is a panic, the result none of UpdateContainerRules.
-- - The table CapToCode takes its codes from the package unix, and is an argument.
-- - The other loops are over lists, and need no fuel.
--
-- Not modelled: logging, locks (each operation is one step), the loading of BPF programs, streams,
-- and the components that the manifest lists as such.
pub mod Base
pub mod Policy
pub mod Bpflsm
pub mod Monitor
pub mod Feeder
pub mod Watcher
