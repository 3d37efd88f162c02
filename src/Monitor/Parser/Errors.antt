-- ===== src/Monitor/Parser/Errors.antt =====
-- syscallParser.go: the table errMsg.
use kube_armor.Base.{[], ◌∷◌, ℕ}
use kube_armor.Base.GoMap.{GoMap}
use kube_armor.Base.Text.{Text, codes}

unfoldable pub error_messages : GoMap ℕ Text
error_messages =
    (1, codes "Operation not permitted")
    ∷ (2, codes "No such file or directory")
    ∷ (3, codes "No such process")
    ∷ (4, codes "Interrupted system call")
    ∷ (5, codes "Input/output error")
    ∷ (6, codes "No such device or address")
    ∷ (7, codes "Argument list too long")
    ∷ (8, codes "Exec format error")
    ∷ (9, codes "Bad file descriptor")
    ∷ (10, codes "No child processes")
    ∷ (11, codes "Resource temporarily unavailable")
    ∷ (12, codes "Cannot allocate memory")
    ∷ (13, codes "Permission denied")
    ∷ (14, codes "Bad address")
    ∷ (15, codes "Block device required")
    ∷ (16, codes "Device or resource busy")
    ∷ (17, codes "File exists")
    ∷ (18, codes "Invalid cross-device link")
    ∷ (19, codes "No such device")
    ∷ (20, codes "Not a directory")
    ∷ (21, codes "Is a directory")
    ∷ (22, codes "Invalid argument")
    ∷ (23, codes "Too many open files in system")
    ∷ (24, codes "Too many open files")
    ∷ (25, codes "Inappropriate ioctl for device")
    ∷ (26, codes "Text file busy")
    ∷ (27, codes "File too large")
    ∷ (28, codes "No space left on device")
    ∷ (29, codes "Illegal seek")
    ∷ (30, codes "Read-only file system")
    ∷ (31, codes "Too many links")
    ∷ (32, codes "Broken pipe")
    ∷ (33, codes "Numerical argument out of domain")
    ∷ (34, codes "Numerical result out of range")
    ∷ (35, codes "Resource deadlock avoided")
    ∷ (36, codes "File name too long")
    ∷ (37, codes "No locks available")
    ∷ (38, codes "Function not implemented")
    ∷ (39, codes "Directory not empty")
    ∷ (40, codes "Too many levels of symbolic links")
    ∷ (42, codes "No message of desired type")
    ∷ (43, codes "Identifier removed")
    ∷ (44, codes "Channel number out of range")
    ∷ (45, codes "Level 2 not synchronized")
    ∷ (46, codes "Level 3 halted")
    ∷ (47, codes "Level 3 reset")
    ∷ (48, codes "Link number out of range")
    ∷ (49, codes "Protocol driver not attached")
    ∷ (50, codes "No CSI structure available")
    ∷ (51, codes "Level 2 halted")
    ∷ (52, codes "Invalid exchange")
    ∷ (53, codes "Invalid request descriptor")
    ∷ (54, codes "Exchange full")
    ∷ (55, codes "No anode")
    ∷ (56, codes "Invalid request code")
    ∷ (57, codes "Invalid slot")
    ∷ (59, codes "Bad font file format")
    ∷ (60, codes "Device not a stream")
    ∷ (61, codes "No data available")
    ∷ (62, codes "Timer expired")
    ∷ (63, codes "Out of streams resources")
    ∷ (64, codes "Machine is not on the network")
    ∷ (65, codes "Package not installed")
    ∷ (66, codes "Object is remote")
    ∷ (67, codes "Link has been severed")
    ∷ (68, codes "Advertise error")
    ∷ (69, codes "Srmount error")
    ∷ (70, codes "Communication error on send")
    ∷ (71, codes "Protocol error")
    ∷ (72, codes "Multihop attempted")
    ∷ (73, codes "RFS specific error")
    ∷ (74, codes "Bad message")
    ∷ (75, codes "Value too large for defined data type")
    ∷ (76, codes "Name not unique on network")
    ∷ (77, codes "File descriptor in bad state")
    ∷ (78, codes "Remote address changed")
    ∷ (79, codes "Can not access a needed shared library")
    ∷ (80, codes "Accessing a corrupted shared library")
    ∷ (81, codes ".lib section in a.out corrupted")
    ∷ (82, codes "Attempting to link in too many shared libraries")
    ∷ (83, codes "Cannot exec a shared library directly")
    ∷ (84, codes "Invalid or incomplete multibyte or wide character")
    ∷ (85, codes "Interrupted system call should be restarted")
    ∷ (86, codes "Streams pipe error")
    ∷ (87, codes "Too many users")
    ∷ (88, codes "Socket operation on non-socket")
    ∷ (89, codes "Destination address required")
    ∷ (90, codes "Message too long")
    ∷ (91, codes "Protocol wrong type for socket")
    ∷ (92, codes "Protocol not available")
    ∷ (93, codes "Protocol not supported")
    ∷ (94, codes "Socket type not supported")
    ∷ (95, codes "Operation not supported")
    ∷ (96, codes "Protocol family not supported")
    ∷ (97, codes "Address family not supported by protocol")
    ∷ (98, codes "Address already in use")
    ∷ (99, codes "Cannot assign requested address")
    ∷ (100, codes "Network is down")
    ∷ (101, codes "Network is unreachable")
    ∷ (102, codes "Network dropped connection on reset")
    ∷ (103, codes "Software caused connection abort")
    ∷ (104, codes "Connection reset by peer")
    ∷ (105, codes "No buffer space available")
    ∷ (106, codes "Transport endpoint is already connected")
    ∷ (107, codes "Transport endpoint is not connected")
    ∷ (108, codes "Cannot send after transport endpoint shutdown")
    ∷ (109, codes "Too many references: cannot splice")
    ∷ (110, codes "Connection timed out")
    ∷ (111, codes "Connection refused")
    ∷ (112, codes "Host is down")
    ∷ (113, codes "No route to host")
    ∷ (114, codes "Operation already in progress")
    ∷ (115, codes "Operation now in progress")
    ∷ (116, codes "Stale file handle")
    ∷ (117, codes "Structure needs cleaning")
    ∷ (118, codes "Not a XENIX named type file")
    ∷ (119, codes "No XENIX semaphores available")
    ∷ (120, codes "Is a named type file")
    ∷ (121, codes "Remote I/O error")
    ∷ (122, codes "Disk quota exceeded")
    ∷ (123, codes "No medium found")
    ∷ (124, codes "Wrong medium type")
    ∷ (125, codes "Operation canceled")
    ∷ (126, codes "Required key not available")
    ∷ (127, codes "Key has expired")
    ∷ (128, codes "Key has been revoked")
    ∷ (129, codes "Key was rejected by service")
    ∷ (130, codes "Owner died")
    ∷ (131, codes "State not recoverable")
    ∷ (132, codes "Operation not possible due to RF-kill")
    ∷ (133, codes "Memory page has hardware error")
    ∷ []
