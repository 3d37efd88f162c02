-- ===== src/Monitor/Parser/Capabilities.antt =====
-- syscallParser.go: the tables Capabilities and auditedSyscalls.
use kube_armor.Base.{[], ◌∷◌, ℕ}
use kube_armor.Base.GoMap.{GoMap}
use kube_armor.Base.Text.{Text, codes}

unfoldable pub capability_names : GoMap ℕ Text
capability_names =
    (0, codes "CAP_CHOWN")
    ∷ (1, codes "CAP_DAC_OVERRIDE")
    ∷ (2, codes "CAP_DAC_READ_SEARCH")
    ∷ (3, codes "CAP_FOWNER")
    ∷ (4, codes "CAP_FSETID")
    ∷ (5, codes "CAP_KILL")
    ∷ (6, codes "CAP_SETGID")
    ∷ (7, codes "CAP_SETUID")
    ∷ (8, codes "CAP_SETPCAP")
    ∷ (9, codes "CAP_LINUX_IMMUTABLE")
    ∷ (10, codes "CAP_NET_BIND_SERVICE")
    ∷ (11, codes "CAP_NET_BROADCAST")
    ∷ (12, codes "CAP_NET_ADMIN")
    ∷ (13, codes "CAP_NET_RAW")
    ∷ (14, codes "CAP_IPC_LOCK")
    ∷ (15, codes "CAP_IPC_OWNER")
    ∷ (16, codes "CAP_SYS_MODULE")
    ∷ (17, codes "CAP_SYS_RAWIO")
    ∷ (18, codes "CAP_SYS_CHROOT")
    ∷ (19, codes "CAP_SYS_PTRACE")
    ∷ (20, codes "CAP_SYS_PACCT")
    ∷ (21, codes "CAP_SYS_ADMIN")
    ∷ (22, codes "CAP_SYS_BOOT")
    ∷ (23, codes "CAP_SYS_NICE")
    ∷ (24, codes "CAP_SYS_RESOURCE")
    ∷ (25, codes "CAP_SYS_TIME")
    ∷ (26, codes "CAP_SYS_TTY_CONFIG")
    ∷ (27, codes "CAP_MKNOD")
    ∷ (28, codes "CAP_LEASE")
    ∷ (29, codes "CAP_AUDIT_WRITE")
    ∷ (30, codes "CAP_AUDIT_CONTROL")
    ∷ (31, codes "CAP_SETFCAP")
    ∷ (32, codes "CAP_MAC_OVERRIDE")
    ∷ (33, codes "CAP_MAC_ADMIN")
    ∷ (34, codes "CAP_SYSLOG")
    ∷ (35, codes "CAP_WAKE_ALARM")
    ∷ (36, codes "CAP_BLOCK_SUSPEND")
    ∷ (37, codes "CAP_AUDIT_READ")
    ∷ []

unfoldable pub audited_syscalls : GoMap ℕ Text
audited_syscalls =
    (84, codes "rmdir")
    ∷ (87, codes "unlink")
    ∷ (92, codes "chown")
    ∷ (105, codes "setuid")
    ∷ (106, codes "setgid")
    ∷ (260, codes "fchownat")
    ∷ (263, codes "unlinkat")
    ∷ (101, codes "ptrace")
    ∷ (165, codes "mount")
    ∷ (166, codes "umount")
    ∷ []
