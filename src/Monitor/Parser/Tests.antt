-- ===== src/Monitor/Parser/Tests.antt =====
-- The theorems of the event decoder at concrete inputs, and runs of it.
use kube_armor.Base.{
  List, ℕ, ◌≡◌, ◌≤◌, ◌+◌, refl, [], ◌∷◌, ◌++◌, none, some, not, ◌&&◌, length, replicate, arith,
}
use kube_armor.Base.Comparable.{nat_eq}
use kube_armor.Base.Text.{Text, codes, contains, drop}
use kube_armor.Monitor.Parser.Address.{read_sockaddr}
use kube_armor.Monitor.Parser.Address.Unix.{has_null, read_sockaddr_loses_path}
use kube_armor.Monitor.Parser.Args.{Arg, get_args, int_arg, read_strings, text_arg, texts_arg}
use kube_armor.Monitor.Parser.Args.Enough.{Run, read_strings-Run}
use kube_armor.Monitor.Parser.Args.Format.{
  little, write_string, write_arg, write_args, AllShort, Plain, AllPlain,
}
use kube_armor.Monitor.Parser.Args.Wire.{get_args-write_args}
use kube_armor.Monitor.Parser.Names.{all_set, get_error_message, get_open_flags, name_or}
use kube_armor.Monitor.Parser.Errors.{error_messages}
use kube_armor.Base.GoMap.{get}
use kube_armor.Base.{◌-◌, ◌^◌}
use kube_armor.Monitor.Parser.Names.Flags.{contains-get_open_flags}
use kube_armor.Monitor.Parser.Reader.{
  go_min, little_endian, max_string_len, read_byte_slice, read_full, read_little, read_string,
}
use kube_armor.Monitor.Parser.Reader.Bounds.{read_string-bounds}

abbrev exec_args : List Arg
exec_args = text_arg (codes "/bin/ls") ∷ texts_arg (codes "ls" ∷ codes "-l" ∷ []) ∷ int_arg 5 ∷ []

abbrev hex : Text → Text
hex text = text

get_args-write_args_example :
    (get_args hex 3 (write_args exec_args ++ (1 ∷ 2 ∷ [])) ≡ some exec_args)
    × (get_args hex 4 (write_args exec_args ++ (write_arg (text_arg []) ++ (1 ∷ 2 ∷ []))) ≡ none)
unfolding AllPlain Plain AllShort
get_args-write_args_example =
    get_args-write_args hex exec_args (1 ∷ 2 ∷ [])
      (
        (omega arith, omega arith),
        (((omega arith, omega arith), ((omega arith, omega arith), tt)), (omega arith, tt)),
      )
      (omega arith)

run_wire : write_args (text_arg (codes "ls") ∷ []) ≡ 10 ∷ 3 ∷ 0 ∷ 0 ∷ 0 ∷ b'l' ∷ b's' ∷ 0 ∷ []
unfolding write_args write_arg write_string little
run_wire = refl

read_strings-Run_example :
    Run 10 []
      (write_string (codes "ls") ++ (11 ∷ []))
      (read_strings 9 10 [] (write_string (codes "ls") ++ (11 ∷ [])))
unfolding write_string little
read_strings-Run_example =
    read_strings-Run 9 10 [] (write_string (codes "ls") ++ (11 ∷ [])) (omega arith)

read_string-bounds_example :
    (length (codes "ls") ≤ max_string_len)
    × (length {A = ℕ} (11 ∷ []) + 4 ≤ length (write_string (codes "ls") ++ (11 ∷ [])))
unfolding read_string read_little read_full little_endian read_byte_slice go_min max_string_len drop
    write_string little
read_string-bounds_example =
    read_string-bounds (write_string (codes "ls") ++ (11 ∷ [])) (codes "ls") (11 ∷ []) refl

contains-get_open_flags_example :
    contains (get_open_flags 0x8041) (codes "O_RDONLY")
    ≡ not (all_set 1 0x8041) && not (all_set 2 0x8041)
contains-get_open_flags_example = contains-get_open_flags 0x8041

run_permission : get_error_message (2 ^ 64 - 13) ≡ codes "Permission denied"
unfolding get_error_message name_or error_messages get
run_permission = refl

read_sockaddr_loses_path_example :
    read_sockaddr hex (1 ∷ 0 ∷ (replicate 108 b'a' ++ []))
    ≡ some ((codes "sa_family", codes "AF_UNIX") ∷ (codes "sun_path", []) ∷ [], [])
unfolding has_null
read_sockaddr_loses_path_example = read_sockaddr_loses_path hex (replicate 108 b'a') [] refl refl
