-- ===== src/Monitor/Parser/Names.antt =====
-- syscallParser.go: the functions that turn numbers into names. A signed number is its bit pattern.
pub mod Flags
use kube_armor.Base.{
  Bool, List, Option, get_or, if◌then◌else◌, is_empty, ltb, ◌&&◌, ◌++◌, ◌∷◌, [], ◌+◌, ◌-◌, ◌%◌, ◌^◌,
  ℕ, bit_and,
}
use kube_armor.Base.Comparable.{nat_eq, ◌==◌}
use kube_armor.Base.Decimal.{itoa}
use kube_armor.Base.GoMap.{GoMap, get, has}
use kube_armor.Base.Text.{Text, codes, join}
use kube_armor.Monitor.Parser.Capabilities.{audited_syscalls, capability_names}
use kube_armor.Monitor.Parser.Errors.{error_messages}
use kube_armor.Monitor.Parser.Protocols.{ip_protocols}
use kube_armor.Monitor.Parser.Requests.{mount_flags, ptrace_requests, umount_flags}
use kube_armor.Monitor.Parser.Sockets.{socket_domains, socket_types}
use kube_armor.Monitor.Parser.Syscalls.{syscall_names}

-- `strconv.Itoa(int(x))` of an int32.
unfoldable pub itoa_int32 : ℕ → Text
itoa_int32 w = if ltb w (2 ^ 31) then itoa w else b'-' ∷ itoa (2 ^ 32 - w)

-- The name of a number in a table, or else its digits.
unfoldable pub name_or : Text → ℕ → GoMap ℕ Text → Text
name_or other n table = get_or (get n table) other

unfoldable pub get_unlink_at_flag : ℕ → Text
get_unlink_at_flag flag = if flag == 0x200 then codes "AT_REMOVEDIR" else []

unfoldable pub get_ptrace_req : ℕ → Text
get_ptrace_req req = name_or (itoa req) req ptrace_requests

unfoldable pub get_mount_flags : ℕ → Text
get_mount_flags flag = name_or (itoa flag) flag mount_flags

unfoldable pub get_umount_flags : ℕ → Text
get_umount_flags flag = name_or (itoa flag) flag umount_flags

-- `flags&mask == mask`
unfoldable pub all_set : ℕ → ℕ → Bool
all_set mask flags = bit_and flags mask == mask

-- The names of the masks that are set, in the order of the table.
unfoldable pub set_names : GoMap ℕ Text → ℕ → List Text
set_names [] flags = []
set_names ((mask, name) ∷ table) flags =
    let rest = set_names table flags in if all_set mask flags then name ∷ rest else rest

unfoldable pub access_mode : ℕ → Text
access_mode flags =
    if all_set 1 flags
    then codes "O_WRONLY"
    else if all_set 2 flags
    then codes "O_RDWR"
    else codes "O_RDONLY"

-- The masks that `getOpenFlags` tests after the access mode.
unfoldable pub open_flags : GoMap ℕ Text
open_flags =
    (0x40, codes "O_CREAT")
    ∷ (0x80, codes "O_EXCL")
    ∷ (0x100, codes "O_NOCTTY")
    ∷ (0x200, codes "O_TRUNC")
    ∷ (0x400, codes "O_APPEND")
    ∷ (0x800, codes "O_NONBLOCK")
    ∷ (0x101000, codes "O_SYNC")
    ∷ (0x2000, codes "O_ASYNC")
    ∷ (0x8000, codes "O_LARGEFILE")
    ∷ (0x1_0000, codes "O_DIRECTORY")
    ∷ (0x2_0000, codes "O_NOFOLLOW")
    ∷ (0x8_0000, codes "O_CLOEXEC")
    ∷ (0x4000, codes "O_DIRECT")
    ∷ (0x4_0000, codes "O_NOATIME")
    ∷ (0x20_0000, codes "O_PATH")
    ∷ (0x40_0000, codes "O_TMPFILE")
    ∷ []

unfoldable pub get_open_flags : ℕ → Text
get_open_flags flags = join b'|' (access_mode flags ∷ set_names open_flags flags)

unfoldable pub exec_flags : GoMap ℕ Text
exec_flags = (0x100, codes "AT_EMPTY_PATH") ∷ (0x1000, codes "AT_SYMLINK_NOFOLLOW") ∷ []

unfoldable pub get_exec_flags : ℕ → Text
get_exec_flags flags =
    let names = set_names exec_flags flags in
    join b'|' (if is_empty names then codes "0" ∷ [] else names)

unfoldable pub get_socket_domain : ℕ → Text
get_socket_domain sd = name_or (itoa sd) sd socket_domains

unfoldable pub socket_flags : GoMap ℕ Text
socket_flags = (0x800, codes "SOCK_NONBLOCK") ∷ (0x8_0000, codes "SOCK_CLOEXEC") ∷ []

unfoldable pub get_socket_type : ℕ → Text
get_socket_type st =
    join b'|' (name_or (itoa st) (bit_and st 0xf) socket_types ∷ set_names socket_flags st)

unfoldable pub get_protocol : ℕ → Text
get_protocol proto = name_or (itoa_int32 proto) proto ip_protocols

unfoldable pub get_capability_name : ℕ → Text
get_capability_name cap = name_or (itoa_int32 cap) cap capability_names

unfoldable pub get_syscall_name : ℕ → Text
get_syscall_name sc = name_or (itoa_int32 sc) sc syscall_names

-- `errno` is an int64, and `-errno` wraps.
unfoldable pub get_error_message : ℕ → Text
get_error_message errno = name_or (codes "Unknown error") ((2 ^ 64 - errno) % 2 ^ 64) error_messages

unfoldable pub is_audited_syscall : ℕ → Bool
is_audited_syscall id = has id audited_syscalls
