-- ===== src/Monitor/Parser/Requests.antt =====
-- syscallParser.go: the names in the switches of getPtraceReq, getMountFlags and getUmountFlags.
use kube_armor.Base.{[], ◌∷◌, ℕ}
use kube_armor.Base.GoMap.{GoMap}
use kube_armor.Base.Text.{Text, codes}

unfoldable pub ptrace_requests : GoMap ℕ Text
ptrace_requests =
    (0, codes "PTRACE_TRACEME")
    ∷ (1, codes "PTRACE_PEEKTEXT")
    ∷ (2, codes "PTRACE_PEEKDATA")
    ∷ (3, codes "PTRACE_PEEKUSER")
    ∷ (4, codes "PTRACE_POKETEXT")
    ∷ (5, codes "PTRACE_POKEDATA")
    ∷ (6, codes "PTRACE_POKEUSER")
    ∷ (7, codes "PTRACE_CONT")
    ∷ (8, codes "PTRACE_KILL")
    ∷ (9, codes "PTRACE_SINGLESTEP")
    ∷ (12, codes "PTRACE_GETREGS")
    ∷ (13, codes "PTRACE_SETREGS")
    ∷ (14, codes "PTRACE_GETFPREGS")
    ∷ (15, codes "PTRACE_SETFPREGS")
    ∷ (16, codes "PTRACE_ATTACH")
    ∷ (17, codes "PTRACE_DETACH")
    ∷ (18, codes "PTRACE_GETFPXREGS")
    ∷ (19, codes "PTRACE_SETFPXREGS")
    ∷ (24, codes "PTRACE_SYSCALL")
    ∷ (16896, codes "PTRACE_SETOPTIONS")
    ∷ (16897, codes "PTRACE_GETEVENTMSG")
    ∷ (16898, codes "PTRACE_GETSIGINFO")
    ∷ (16899, codes "PTRACE_SETSIGINFO")
    ∷ (16900, codes "PTRACE_GETREGSET")
    ∷ (16901, codes "PTRACE_SETREGSET")
    ∷ (16902, codes "PTRACE_SEIZE")
    ∷ (16903, codes "PTRACE_INTERRUPT")
    ∷ (16904, codes "PTRACE_LISTEN")
    ∷ (16905, codes "PTRACE_PEEKSIGINFO")
    ∷ (16906, codes "PTRACE_GETSIGMASK")
    ∷ (16907, codes "PTRACE_SETSIGMASK")
    ∷ (16908, codes "PTRACE_SECCOMP_GET_FILTER")
    ∷ (16909, codes "PTRACE_SECCOMP_GET_METADATA")
    ∷ (16910, codes "PTRACE_GET_SYSCALL_INFO")
    ∷ []

unfoldable pub mount_flags : GoMap ℕ Text
mount_flags =
    (1, codes "MS_RDONLY")
    ∷ (2, codes "MS_NOSUID")
    ∷ (4, codes "MS_NODEV")
    ∷ (8, codes "MS_NOEXEC")
    ∷ (16, codes "MS_SYNCHRONOUS")
    ∷ (32, codes "MS_REMOUNT")
    ∷ (64, codes "MS_MANDLOCK")
    ∷ (128, codes "S_WRITE")
    ∷ (256, codes "S_APPEND")
    ∷ (512, codes "S_IMMUTABLE")
    ∷ (1024, codes "MS_NOATIME")
    ∷ (2048, codes "MS_NODIRATIME")
    ∷ (4096, codes "MS_BIND")
    ∷ []

unfoldable pub umount_flags : GoMap ℕ Text
umount_flags =
    (1, codes "MNT_FORCE")
    ∷ (2, codes "MNT_DETACH")
    ∷ (4, codes "MNT_EXPIRE")
    ∷ (8, codes "UMOUNT_NOFOLLOW")
    ∷ []
