-- ===== src/Monitor/Parser/Args.antt =====
-- syscallParser.go, `readArgFromBuff` and `GetArgs`. How net.IP prints sixteen bytes is an argument.
pub mod Format
pub mod Wire
pub mod Enough
use kube_armor.Base.{
  List, Option, if◌then◌else◌, length, none, some, ◌∷◌, ◌++◌, [], ℕ, zero, suc, ltb, ◌^◌,
}
use kube_armor.Base.Comparable.{nat_eq, ◌==◌}
use kube_armor.Base.GoMap.{GoMap}
use kube_armor.Base.Text.{Text}
use kube_armor.Monitor.Parser.Address.{read_sockaddr}
use kube_armor.Monitor.Parser.Names.{
  get_capability_name, get_exec_flags, get_mount_flags, get_open_flags, get_ptrace_req,
  get_socket_domain, get_socket_type, get_syscall_name, get_umount_flags, get_unlink_at_flag,
}
use kube_armor.Monitor.Parser.Reader.{Read, ◌>>=◌, read_big, read_full, read_little, read_string}

-- The values that the interface of an argument can hold.
pub data Arg : Type 0 where
  int_arg word_arg : ℕ → Arg
  text_arg : Text → Arg
  texts_arg : List Text → Arg
  address_arg : GoMap Text Text → Arg

-- The data types, by the numbers that stand for them in the buffer.
pub data DataType : Type 0 where
  int_t str_t str_arr_t sock_addr_t open_flags_t exec_flags_t sock_dom_t sock_type_t : DataType
  cap_t syscall_t unlink_at_flag_t ptrace_req_t mount_flag_t umount_flag_t udp_msg q_type : DataType

unfoldable pub data_type : ℕ → Option DataType
data_type n =
    if n == 1
    then some int_t
    else if n == 10
    then some str_t
    else if n == 11
    then some str_arr_t
    else if n == 12
    then some sock_addr_t
    else if n == 13
    then some open_flags_t
    else if n == 14
    then some exec_flags_t
    else if n == 15
    then some sock_dom_t
    else if n == 16
    then some sock_type_t
    else if n == 17
    then some cap_t
    else if n == 18
    then some syscall_t
    else if n == 19
    then some unlink_at_flag_t
    else if n == 23
    then some ptrace_req_t
    else if n == 24
    then some mount_flag_t
    else if n == 25
    then some umount_flag_t
    else if n == 26
    then some udp_msg
    else if n == 27
    then some q_type
    else none

-- The loop over the elements of an array of strings, from the type `et` on.
unfoldable pub read_strings : ℕ → ℕ → List Text → Text → Read (List Text)
read_strings zero et ss s = none
read_strings (suc fuel) et ss s =
    let rest = (do
      (str, s₁) ← read_string s
      (et', s₂) ← read_little 1 s₁
      read_strings fuel et' (ss ++ (str ∷ [])) s₂) in
    if et == 11 then some (ss, s) else rest

-- A number that is shown by a name.
unfoldable pub read_named : (ℕ → Text) → Text → Read Arg
read_named name s = do (n, rest) ← read_little 4 s; some (text_arg (name n), rest)

unfoldable pub read_text : Text → Read Arg
read_text s = do (text, rest) ← read_string s; some (text_arg text, rest)

module _ (ipv6 : Text → Text) where
  unfoldable pub read_value : DataType → Text → Read Arg
  read_value int_t s = do (n, rest) ← read_little 4 s; some (int_arg n, rest)
  read_value str_t s = read_text s
  read_value str_arr_t s = do
    (et, s₁) ← read_little 1 s
    (ss, rest) ← read_strings (suc (length s₁)) et [] s₁
    some (texts_arg ss, rest)
  read_value sock_addr_t s = do
    (address, rest) ← read_sockaddr ipv6 s
    some (address_arg address, rest)
  read_value open_flags_t s = read_named get_open_flags s
  read_value exec_flags_t s = read_named get_exec_flags s
  read_value sock_dom_t s = read_named get_socket_domain s
  read_value sock_type_t s = read_named get_socket_type s
  read_value cap_t s = read_named get_capability_name s
  read_value syscall_t s = read_named get_syscall_name s
  read_value unlink_at_flag_t s = read_named get_unlink_at_flag s
  read_value ptrace_req_t s = read_named get_ptrace_req s
  read_value mount_flag_t s = read_named get_mount_flags s
  read_value umount_flag_t s = read_named get_umount_flags s
  read_value udp_msg s = read_text s
  read_value q_type s = do (n, rest) ← read_big 2 s; some (word_arg n, rest)

  unfoldable pub read_arg : Text → Read Arg
  read_arg s = do (n, s₁) ← read_little 1 s; t ← data_type n; read_value t s₁

  unfoldable pub read_args : ℕ → Text → Option (List Arg)
  read_args zero s = some []
  read_args (suc n) s = do (arg, rest) ← read_arg s; more ← read_args n rest; some (arg ∷ more)

  -- The number of arguments is an int32, and a negative one means none.
  unfoldable pub get_args : ℕ → Text → Option (List Arg)
  get_args arg_num s = read_args (if ltb arg_num (2 ^ 31) then arg_num else 0) s
