-- ===== src/Monitor/Parser/Sockets.antt =====
-- syscallParser.go: the tables socketDomains and socketTypes.
use kube_armor.Base.{[], ◌∷◌, ℕ}
use kube_armor.Base.GoMap.{GoMap}
use kube_armor.Base.Text.{Text, codes}

unfoldable pub socket_domains : GoMap ℕ Text
socket_domains =
    (0, codes "AF_UNSPEC")
    ∷ (1, codes "AF_UNIX")
    ∷ (2, codes "AF_INET")
    ∷ (3, codes "AF_AX25")
    ∷ (4, codes "AF_IPX")
    ∷ (5, codes "AF_APPLETALK")
    ∷ (6, codes "AF_NETROM")
    ∷ (7, codes "AF_BRIDGE")
    ∷ (8, codes "AF_ATMPVC")
    ∷ (9, codes "AF_X25")
    ∷ (10, codes "AF_INET6")
    ∷ (11, codes "AF_ROSE")
    ∷ (12, codes "AF_DECnet")
    ∷ (13, codes "AF_NETBEUI")
    ∷ (14, codes "AF_SECURITY")
    ∷ (15, codes "AF_KEY")
    ∷ (16, codes "AF_NETLINK")
    ∷ (17, codes "AF_PACKET")
    ∷ (18, codes "AF_ASH")
    ∷ (19, codes "AF_ECONET")
    ∷ (20, codes "AF_ATMSVC")
    ∷ (21, codes "AF_RDS")
    ∷ (22, codes "AF_SNA")
    ∷ (23, codes "AF_IRDA")
    ∷ (24, codes "AF_PPPOX")
    ∷ (25, codes "AF_WANPIPE")
    ∷ (26, codes "AF_LLC")
    ∷ (27, codes "AF_IB")
    ∷ (28, codes "AF_MPLS")
    ∷ (29, codes "AF_CAN")
    ∷ (30, codes "AF_TIPC")
    ∷ (31, codes "AF_BLUETOOTH")
    ∷ (32, codes "AF_IUCV")
    ∷ (33, codes "AF_RXRPC")
    ∷ (34, codes "AF_ISDN")
    ∷ (35, codes "AF_PHONET")
    ∷ (36, codes "AF_IEEE802154")
    ∷ (37, codes "AF_CAIF")
    ∷ (38, codes "AF_ALG")
    ∷ (39, codes "AF_NFC")
    ∷ (40, codes "AF_VSOCK")
    ∷ (41, codes "AF_KCM")
    ∷ (42, codes "AF_QIPCRTR")
    ∷ (43, codes "AF_SMC")
    ∷ (44, codes "AF_XDP")
    ∷ []

unfoldable pub socket_types : GoMap ℕ Text
socket_types =
    (1, codes "SOCK_STREAM")
    ∷ (2, codes "SOCK_DGRAM")
    ∷ (3, codes "SOCK_RAW")
    ∷ (4, codes "SOCK_RDM")
    ∷ (5, codes "SOCK_SEQPACKET")
    ∷ (6, codes "SOCK_DCCP")
    ∷ (10, codes "SOCK_PACKET")
    ∷ []
