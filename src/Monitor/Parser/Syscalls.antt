-- ===== src/Monitor/Parser/Syscalls.antt =====
-- syscalls_amd64.go: the table syscalls.
use kube_armor.Base.{[], ◌∷◌, ℕ}
use kube_armor.Base.GoMap.{GoMap}
use kube_armor.Base.Text.{Text, codes}

unfoldable pub syscall_names : GoMap ℕ Text
syscall_names =
    (0, codes "SYS_READ")
    ∷ (1, codes "SYS_WRITE")
    ∷ (2, codes "SYS_OPEN")
    ∷ (3, codes "SYS_CLOSE")
    ∷ (4, codes "SYS_STAT")
    ∷ (5, codes "SYS_FSTAT")
    ∷ (6, codes "SYS_LSTAT")
    ∷ (7, codes "SYS_POLL")
    ∷ (8, codes "SYS_LSEEK")
    ∷ (9, codes "SYS_MMAP")
    ∷ (10, codes "SYS_MPROTECT")
    ∷ (11, codes "SYS_MUNMAP")
    ∷ (12, codes "SYS_BRK")
    ∷ (13, codes "SYS_RT_SIGACTION")
    ∷ (14, codes "SYS_RT_SIGPROCMASK")
    ∷ (15, codes "SYS_RT_SIGRETURN")
    ∷ (16, codes "SYS_IOCTL")
    ∷ (17, codes "SYS_PREAD64")
    ∷ (18, codes "SYS_PWRITE64")
    ∷ (19, codes "SYS_READV")
    ∷ (20, codes "SYS_WRITEV")
    ∷ (21, codes "SYS_ACCESS")
    ∷ (22, codes "SYS_PIPE")
    ∷ (23, codes "SYS_SELECT")
    ∷ (24, codes "SYS_SCHED_YIELD")
    ∷ (25, codes "SYS_MREMAP")
    ∷ (26, codes "SYS_MSYNC")
    ∷ (27, codes "SYS_MINCORE")
    ∷ (28, codes "SYS_MADVISE")
    ∷ (29, codes "SYS_SHMGET")
    ∷ (30, codes "SYS_SHMAT")
    ∷ (31, codes "SYS_SHMCTL")
    ∷ (32, codes "SYS_DUP")
    ∷ (33, codes "SYS_DUP2")
    ∷ (34, codes "SYS_PAUSE")
    ∷ (35, codes "SYS_NANOSLEEP")
    ∷ (36, codes "SYS_GETITIMER")
    ∷ (37, codes "SYS_ALARM")
    ∷ (38, codes "SYS_SETITIMER")
    ∷ (39, codes "SYS_GETPID")
    ∷ (40, codes "SYS_SENDFILE")
    ∷ (41, codes "SYS_SOCKET")
    ∷ (42, codes "SYS_CONNECT")
    ∷ (43, codes "SYS_ACCEPT")
    ∷ (44, codes "SYS_SENDTO")
    ∷ (45, codes "SYS_RECVFROM")
    ∷ (46, codes "SYS_SENDMSG")
    ∷ (47, codes "SYS_RECVMSG")
    ∷ (48, codes "SYS_SHUTDOWN")
    ∷ (49, codes "SYS_BIND")
    ∷ (50, codes "SYS_LISTEN")
    ∷ (51, codes "SYS_GETSOCKNAME")
    ∷ (52, codes "SYS_GETPEERNAME")
    ∷ (53, codes "SYS_SOCKETPAIR")
    ∷ (54, codes "SYS_SETSOCKOPT")
    ∷ (55, codes "SYS_GETSOCKOPT")
    ∷ (56, codes "SYS_CLONE")
    ∷ (57, codes "SYS_FORK")
    ∷ (58, codes "SYS_VFORK")
    ∷ (59, codes "SYS_EXECVE")
    ∷ (60, codes "SYS_EXIT")
    ∷ (61, codes "SYS_WAIT4")
    ∷ (62, codes "SYS_KILL")
    ∷ (63, codes "SYS_UNAME")
    ∷ (64, codes "SYS_SEMGET")
    ∷ (65, codes "SYS_SEMOP")
    ∷ (66, codes "SYS_SEMCTL")
    ∷ (67, codes "SYS_SHMDT")
    ∷ (68, codes "SYS_MSGGET")
    ∷ (69, codes "SYS_MSGSND")
    ∷ (70, codes "SYS_MSGRCV")
    ∷ (71, codes "SYS_MSGCTL")
    ∷ (72, codes "SYS_FCNTL")
    ∷ (73, codes "SYS_FLOCK")
    ∷ (74, codes "SYS_FSYNC")
    ∷ (75, codes "SYS_FDATASYNC")
    ∷ (76, codes "SYS_TRUNCATE")
    ∷ (77, codes "SYS_FTRUNCATE")
    ∷ (78, codes "SYS_GETDENTS")
    ∷ (79, codes "SYS_GETCWD")
    ∷ (80, codes "SYS_CHDIR")
    ∷ (81, codes "SYS_FCHDIR")
    ∷ (82, codes "SYS_RENAME")
    ∷ (83, codes "SYS_MKDIR")
    ∷ (84, codes "SYS_RMDIR")
    ∷ (85, codes "SYS_CREAT")
    ∷ (86, codes "SYS_LINK")
    ∷ (87, codes "SYS_UNLINK")
    ∷ (88, codes "SYS_SYMLINK")
    ∷ (89, codes "SYS_READLINK")
    ∷ (90, codes "SYS_CHMOD")
    ∷ (91, codes "SYS_FCHMOD")
    ∷ (92, codes "SYS_CHOWN")
    ∷ (93, codes "SYS_FCHOWN")
    ∷ (94, codes "SYS_LCHOWN")
    ∷ (95, codes "SYS_UMASK")
    ∷ (96, codes "SYS_GETTIMEOFDAY")
    ∷ (97, codes "SYS_GETRLIMIT")
    ∷ (98, codes "SYS_GETRUSAGE")
    ∷ (99, codes "SYS_SYSINFO")
    ∷ (100, codes "SYS_TIMES")
    ∷ (101, codes "SYS_PTRACE")
    ∷ (102, codes "SYS_GETUID")
    ∷ (103, codes "SYS_SYSLOG")
    ∷ (104, codes "SYS_GETGID")
    ∷ (105, codes "SYS_SETUID")
    ∷ (106, codes "SYS_SETGID")
    ∷ (107, codes "SYS_GETEUID")
    ∷ (108, codes "SYS_GETEGID")
    ∷ (109, codes "SYS_SETPGID")
    ∷ (110, codes "SYS_GETPPID")
    ∷ (111, codes "SYS_GETPGRP")
    ∷ (112, codes "SYS_SETSID")
    ∷ (113, codes "SYS_SETREUID")
    ∷ (114, codes "SYS_SETREGID")
    ∷ (115, codes "SYS_GETGROUPS")
    ∷ (116, codes "SYS_SETGROUPS")
    ∷ (117, codes "SYS_SETRESUID")
    ∷ (118, codes "SYS_GETRESUID")
    ∷ (119, codes "SYS_SETRESGID")
    ∷ (120, codes "SYS_GETRESGID")
    ∷ (121, codes "SYS_GETPGID")
    ∷ (122, codes "SYS_SETFSUID")
    ∷ (123, codes "SYS_SETFSGID")
    ∷ (124, codes "SYS_GETSID")
    ∷ (125, codes "SYS_CAPGET")
    ∷ (126, codes "SYS_CAPSET")
    ∷ (127, codes "SYS_RT_SIGPENDING")
    ∷ (128, codes "SYS_RT_SIGTIMEDWAIT")
    ∷ (129, codes "SYS_RT_SIGQUEUEINFO")
    ∷ (130, codes "SYS_RT_SIGSUSPEND")
    ∷ (131, codes "SYS_SIGALTSTACK")
    ∷ (132, codes "SYS_UTIME")
    ∷ (133, codes "SYS_MKNOD")
    ∷ (134, codes "SYS_USELIB")
    ∷ (135, codes "SYS_PERSONALITY")
    ∷ (136, codes "SYS_USTAT")
    ∷ (137, codes "SYS_STATFS")
    ∷ (138, codes "SYS_FSTATFS")
    ∷ (139, codes "SYS_SYSFS")
    ∷ (140, codes "SYS_GETPRIORITY")
    ∷ (141, codes "SYS_SETPRIORITY")
    ∷ (142, codes "SYS_SCHED_SETPARAM")
    ∷ (143, codes "SYS_SCHED_GETPARAM")
    ∷ (144, codes "SYS_SCHED_SETSCHEDULER")
    ∷ (145, codes "SYS_SCHED_GETSCHEDULER")
    ∷ (146, codes "SYS_SCHED_GET_PRIORITY_MAX")
    ∷ (147, codes "SYS_SCHED_GET_PRIORITY_MIN")
    ∷ (148, codes "SYS_SCHED_RR_GET_INTERVAL")
    ∷ (149, codes "SYS_MLOCK")
    ∷ (150, codes "SYS_MUNLOCK")
    ∷ (151, codes "SYS_MLOCKALL")
    ∷ (152, codes "SYS_MUNLOCKALL")
    ∷ (153, codes "SYS_VHANGUP")
    ∷ (154, codes "SYS_MODIFY_LDT")
    ∷ (155, codes "SYS_PIVOT_ROOT")
    ∷ (156, codes "SYS__SYSCTL")
    ∷ (157, codes "SYS_PRCTL")
    ∷ (158, codes "SYS_ARCH_PRCTL")
    ∷ (159, codes "SYS_ADJTIMEX")
    ∷ (160, codes "SYS_SETRLIMIT")
    ∷ (161, codes "SYS_CHROOT")
    ∷ (162, codes "SYS_SYNC")
    ∷ (163, codes "SYS_ACCT")
    ∷ (164, codes "SYS_SETTIMEOFDAY")
    ∷ (165, codes "SYS_MOUNT")
    ∷ (166, codes "SYS_UMOUNT2")
    ∷ (167, codes "SYS_SWAPON")
    ∷ (168, codes "SYS_SWAPOFF")
    ∷ (169, codes "SYS_REBOOT")
    ∷ (170, codes "SYS_SETHOSTNAME")
    ∷ (171, codes "SYS_SETDOMAINNAME")
    ∷ (172, codes "SYS_IOPL")
    ∷ (173, codes "SYS_IOPERM")
    ∷ (174, codes "SYS_CREATE_MODULE")
    ∷ (175, codes "SYS_INIT_MODULE")
    ∷ (176, codes "SYS_DELETE_MODULE")
    ∷ (177, codes "SYS_GET_KERNEL_SYMS")
    ∷ (178, codes "SYS_QUERY_MODULE")
    ∷ (179, codes "SYS_QUOTACTL")
    ∷ (180, codes "SYS_NFSSERVCTL")
    ∷ (181, codes "SYS_GETPMSG")
    ∷ (182, codes "SYS_PUTPMSG")
    ∷ (183, codes "SYS_AFS_SYSCALL")
    ∷ (184, codes "SYS_TUXCALL")
    ∷ (185, codes "SYS_SECURITY")
    ∷ (186, codes "SYS_GETTID")
    ∷ (187, codes "SYS_READAHEAD")
    ∷ (188, codes "SYS_SETXATTR")
    ∷ (189, codes "SYS_LSETXATTR")
    ∷ (190, codes "SYS_FSETXATTR")
    ∷ (191, codes "SYS_GETXATTR")
    ∷ (192, codes "SYS_LGETXATTR")
    ∷ (193, codes "SYS_FGETXATTR")
    ∷ (194, codes "SYS_LISTXATTR")
    ∷ (195, codes "SYS_LLISTXATTR")
    ∷ (196, codes "SYS_FLISTXATTR")
    ∷ (197, codes "SYS_REMOVEXATTR")
    ∷ (198, codes "SYS_LREMOVEXATTR")
    ∷ (199, codes "SYS_FREMOVEXATTR")
    ∷ (200, codes "SYS_TKILL")
    ∷ (201, codes "SYS_TIME")
    ∷ (202, codes "SYS_FUTEX")
    ∷ (203, codes "SYS_SCHED_SETAFFINITY")
    ∷ (204, codes "SYS_SCHED_GETAFFINITY")
    ∷ (205, codes "SYS_SET_THREAD_AREA")
    ∷ (206, codes "SYS_IO_SETUP")
    ∷ (207, codes "SYS_IO_DESTROY")
    ∷ (208, codes "SYS_IO_GETEVENTS")
    ∷ (209, codes "SYS_IO_SUBMIT")
    ∷ (210, codes "SYS_IO_CANCEL")
    ∷ (211, codes "SYS_GET_THREAD_AREA")
    ∷ (212, codes "SYS_LOOKUP_DCOOKIE")
    ∷ (213, codes "SYS_EPOLL_CREATE")
    ∷ (214, codes "SYS_EPOLL_CTL_OLD")
    ∷ (215, codes "SYS_EPOLL_WAIT_OLD")
    ∷ (216, codes "SYS_REMAP_FILE_PAGES")
    ∷ (217, codes "SYS_GETDENTS64")
    ∷ (218, codes "SYS_SET_TID_ADDRESS")
    ∷ (219, codes "SYS_RESTART_SYSCALL")
    ∷ (220, codes "SYS_SEMTIMEDOP")
    ∷ (221, codes "SYS_FADVISE64")
    ∷ (222, codes "SYS_TIMER_CREATE")
    ∷ (223, codes "SYS_TIMER_SETTIME")
    ∷ (224, codes "SYS_TIMER_GETTIME")
    ∷ (225, codes "SYS_TIMER_GETOVERRUN")
    ∷ (226, codes "SYS_TIMER_DELETE")
    ∷ (227, codes "SYS_CLOCK_SETTIME")
    ∷ (228, codes "SYS_CLOCK_GETTIME")
    ∷ (229, codes "SYS_CLOCK_GETRES")
    ∷ (230, codes "SYS_CLOCK_NANOSLEEP")
    ∷ (231, codes "SYS_EXIT_GROUP")
    ∷ (232, codes "SYS_EPOLL_WAIT")
    ∷ (233, codes "SYS_EPOLL_CTL")
    ∷ (234, codes "SYS_TGKILL")
    ∷ (235, codes "SYS_UTIMES")
    ∷ (236, codes "SYS_VSERVER")
    ∷ (237, codes "SYS_MBIND")
    ∷ (238, codes "SYS_SET_MEMPOLICY")
    ∷ (239, codes "SYS_GET_MEMPOLICY")
    ∷ (240, codes "SYS_MQ_OPEN")
    ∷ (241, codes "SYS_MQ_UNLINK")
    ∷ (242, codes "SYS_MQ_TIMEDSEND")
    ∷ (243, codes "SYS_MQ_TIMEDRECEIVE")
    ∷ (244, codes "SYS_MQ_NOTIFY")
    ∷ (245, codes "SYS_MQ_GETSETATTR")
    ∷ (246, codes "SYS_KEXEC_LOAD")
    ∷ (247, codes "SYS_WAITID")
    ∷ (248, codes "SYS_ADD_KEY")
    ∷ (249, codes "SYS_REQUEST_KEY")
    ∷ (250, codes "SYS_KEYCTL")
    ∷ (251, codes "SYS_IOPRIO_SET")
    ∷ (252, codes "SYS_IOPRIO_GET")
    ∷ (253, codes "SYS_INOTIFY_INIT")
    ∷ (254, codes "SYS_INOTIFY_ADD_WATCH")
    ∷ (255, codes "SYS_INOTIFY_RM_WATCH")
    ∷ (256, codes "SYS_MIGRATE_PAGES")
    ∷ (257, codes "SYS_OPENAT")
    ∷ (258, codes "SYS_MKDIRAT")
    ∷ (259, codes "SYS_MKNODAT")
    ∷ (260, codes "SYS_FCHOWNAT")
    ∷ (261, codes "SYS_FUTIMESAT")
    ∷ (262, codes "SYS_NEWFSTATAT")
    ∷ (263, codes "SYS_UNLINKAT")
    ∷ (264, codes "SYS_RENAMEAT")
    ∷ (265, codes "SYS_LINKAT")
    ∷ (266, codes "SYS_SYMLINKAT")
    ∷ (267, codes "SYS_READLINKAT")
    ∷ (268, codes "SYS_FCHMODAT")
    ∷ (269, codes "SYS_FACCESSAT")
    ∷ (270, codes "SYS_PSELECT6")
    ∷ (271, codes "SYS_PPOLL")
    ∷ (272, codes "SYS_UNSHARE")
    ∷ (273, codes "SYS_SET_ROBUST_LIST")
    ∷ (274, codes "SYS_GET_ROBUST_LIST")
    ∷ (275, codes "SYS_SPLICE")
    ∷ (276, codes "SYS_TEE")
    ∷ (277, codes "SYS_SYNC_FILE_RANGE")
    ∷ (278, codes "SYS_VMSPLICE")
    ∷ (279, codes "SYS_MOVE_PAGES")
    ∷ (280, codes "SYS_UTIMENSAT")
    ∷ (281, codes "SYS_EPOLL_PWAIT")
    ∷ (282, codes "SYS_SIGNALFD")
    ∷ (283, codes "SYS_TIMERFD_CREATE")
    ∷ (284, codes "SYS_EVENTFD")
    ∷ (285, codes "SYS_FALLOCATE")
    ∷ (286, codes "SYS_TIMERFD_SETTIME")
    ∷ (287, codes "SYS_TIMERFD_GETTIME")
    ∷ (288, codes "SYS_ACCEPT4")
    ∷ (289, codes "SYS_SIGNALFD4")
    ∷ (290, codes "SYS_EVENTFD2")
    ∷ (291, codes "SYS_EPOLL_CREATE1")
    ∷ (292, codes "SYS_DUP3")
    ∷ (293, codes "SYS_PIPE2")
    ∷ (294, codes "SYS_INOTIFY_INIT1")
    ∷ (295, codes "SYS_PREADV")
    ∷ (296, codes "SYS_PWRITEV")
    ∷ (297, codes "SYS_RT_TGSIGQUEUEINFO")
    ∷ (298, codes "SYS_PERF_EVENT_OPEN")
    ∷ (299, codes "SYS_RECVMMSG")
    ∷ (300, codes "SYS_FANOTIFY_INIT")
    ∷ (301, codes "SYS_FANOTIFY_MARK")
    ∷ (302, codes "SYS_PRLIMIT64")
    ∷ (303, codes "SYS_NAME_TO_HANDLE_AT")
    ∷ (304, codes "SYS_OPEN_BY_HANDLE_AT")
    ∷ (305, codes "SYS_CLOCK_ADJTIME")
    ∷ (306, codes "SYS_SYNCFS")
    ∷ (307, codes "SYS_SENDMMSG")
    ∷ (308, codes "SYS_SETNS")
    ∷ (309, codes "SYS_GETCPU")
    ∷ (310, codes "SYS_PROCESS_VM_READV")
    ∷ (311, codes "SYS_PROCESS_VM_WRITEV")
    ∷ (312, codes "SYS_KCMP")
    ∷ (313, codes "SYS_FINIT_MODULE")
    ∷ (314, codes "SYS_SCHED_SETATTR")
    ∷ (315, codes "SYS_SCHED_GETATTR")
    ∷ (316, codes "SYS_RENAMEAT2")
    ∷ (317, codes "SYS_SECCOMP")
    ∷ (318, codes "SYS_GETRANDOM")
    ∷ (319, codes "SYS_MEMFD_CREATE")
    ∷ (320, codes "SYS_KEXEC_FILE_LOAD")
    ∷ (321, codes "SYS_BPF")
    ∷ (322, codes "SYS_EXECVEAT")
    ∷ (323, codes "SYS_USERFAULTFD")
    ∷ (324, codes "SYS_MEMBARRIER")
    ∷ (325, codes "SYS_MLOCK2")
    ∷ (326, codes "SYS_COPY_FILE_RANGE")
    ∷ (327, codes "SYS_PREADV2")
    ∷ (328, codes "SYS_PWRITEV2")
    ∷ (329, codes "SYS_PKEY_MPROTECT")
    ∷ (330, codes "SYS_PKEY_ALLOC")
    ∷ (331, codes "SYS_PKEY_FREE")
    ∷ (332, codes "SYS_STATX")
    ∷ (351, codes "DO_EXIT")
    ∷ (352, codes "SECURITY_BPRM_CHECK")
    ∷ (450, codes "FILE_OPEN")
    ∷ (451, codes "FILE_PERMISSION")
    ∷ (452, codes "FILE_MKNOD")
    ∷ (453, codes "FILE_UNLINK")
    ∷ (454, codes "FILE_MKDIR")
    ∷ (455, codes "FILE_RMDIR")
    ∷ (456, codes "FILE_SYMLINK")
    ∷ (457, codes "FILE_LINK")
    ∷ (458, codes "FILE_RENAME")
    ∷ (459, codes "FILE_CHMOD")
    ∷ (460, codes "FILE_TRUNCATE")
    ∷ (461, codes "SOCKET_CREATE")
    ∷ (462, codes "SOCKET_CONNECT")
    ∷ (463, codes "SOCKET_ACCEPT")
    ∷ (464, codes "CAPABLE")
    ∷ []
