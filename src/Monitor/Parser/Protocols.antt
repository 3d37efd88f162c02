-- ===== src/Monitor/Parser/Protocols.antt =====
-- syscallParser.go: the table protocols.
use kube_armor.Base.{[], ◌∷◌, ℕ}
use kube_armor.Base.GoMap.{GoMap}
use kube_armor.Base.Text.{Text, codes}

unfoldable pub ip_protocols : GoMap ℕ Text
ip_protocols =
    (0, codes "HOPOPT")
    ∷ (1, codes "ICMP")
    ∷ (2, codes "IGMP")
    ∷ (3, codes "GGP")
    ∷ (4, codes "IPv4")
    ∷ (5, codes "ST")
    ∷ (6, codes "TCP")
    ∷ (7, codes "CBT")
    ∷ (8, codes "EGP")
    ∷ (9, codes "IGP")
    ∷ (10, codes "BBN-RCC-MON")
    ∷ (11, codes "NVP-II")
    ∷ (12, codes "PUP")
    ∷ (14, codes "EMCON")
    ∷ (15, codes "XNET")
    ∷ (16, codes "CHAOS")
    ∷ (17, codes "UDP")
    ∷ (18, codes "MUX")
    ∷ (19, codes "DCN-MEAS")
    ∷ (20, codes "HMP")
    ∷ (21, codes "PRM")
    ∷ (22, codes "XNS-IDP")
    ∷ (23, codes "TRUNK-1")
    ∷ (24, codes "TRUNK-2")
    ∷ (25, codes "LEAF-1")
    ∷ (26, codes "LEAF-2")
    ∷ (27, codes "RDP")
    ∷ (28, codes "IRTP")
    ∷ (29, codes "ISO-TP4")
    ∷ (30, codes "NETBLT")
    ∷ (31, codes "MFE-NSP")
    ∷ (32, codes "MERIT-INP")
    ∷ (33, codes "DCCP")
    ∷ (34, codes "3PC")
    ∷ (35, codes "IDPR")
    ∷ (36, codes "XTP")
    ∷ (37, codes "DDP")
    ∷ (38, codes "IDPR-CMTP")
    ∷ (39, codes "TP++")
    ∷ (40, codes "IL")
    ∷ (41, codes "IPv6")
    ∷ (42, codes "SDRP")
    ∷ (43, codes "IPv6-Route")
    ∷ (44, codes "IPv6-Frag")
    ∷ (45, codes "IDRP")
    ∷ (46, codes "RSVP")
    ∷ (47, codes "GRE")
    ∷ (48, codes "DSR")
    ∷ (49, codes "BNA")
    ∷ (50, codes "ESP")
    ∷ (51, codes "AH")
    ∷ (52, codes "I-NLSP")
    ∷ (54, codes "NARP")
    ∷ (55, codes "Min-IPv4")
    ∷ (56, codes "TLSP")
    ∷ (57, codes "SKIP")
    ∷ (58, codes "IPv6-ICMP")
    ∷ (59, codes "IPv6-NoNxt")
    ∷ (60, codes "IPv6-Opts")
    ∷ (62, codes "CFTP")
    ∷ (64, codes "SAT-EXPAK")
    ∷ (65, codes "KRYPTOLAN")
    ∷ (66, codes "RVD")
    ∷ (67, codes "IPPC")
    ∷ (69, codes "SAT-MON")
    ∷ (70, codes "VISA")
    ∷ (71, codes "IPCV")
    ∷ (72, codes "CPNX")
    ∷ (73, codes "CPHB")
    ∷ (74, codes "WSN")
    ∷ (75, codes "PVP")
    ∷ (76, codes "BR-SAT-MON")
    ∷ (77, codes "SUN-ND")
    ∷ (78, codes "WB-MON")
    ∷ (79, codes "WB-EXPAK")
    ∷ (80, codes "ISO-IP")
    ∷ (81, codes "VMTP")
    ∷ (82, codes "SECURE-VMTP")
    ∷ (83, codes "VINES")
    ∷ (84, codes "IPTM")
    ∷ (85, codes "NSFNET-IGP")
    ∷ (86, codes "DGP")
    ∷ (87, codes "TCF")
    ∷ (88, codes "EIGRP")
    ∷ (89, codes "OSPF")
    ∷ (90, codes "Sprite-RPC")
    ∷ (91, codes "LARP")
    ∷ (92, codes "MTP")
    ∷ (93, codes "AX.25")
    ∷ (94, codes "IPIP")
    ∷ (96, codes "SCC-SP")
    ∷ (97, codes "ETHERIP")
    ∷ (98, codes "ENCAP")
    ∷ (100, codes "GMTP")
    ∷ (101, codes "IFMP")
    ∷ (102, codes "PNNI")
    ∷ (103, codes "PIM")
    ∷ (104, codes "ARIS")
    ∷ (105, codes "SCPS")
    ∷ (106, codes "QNX")
    ∷ (107, codes "A/N")
    ∷ (108, codes "IPComp")
    ∷ (109, codes "SNP")
    ∷ (110, codes "Compaq-Peer")
    ∷ (111, codes "IPX-in-IP")
    ∷ (112, codes "VRRP")
    ∷ (113, codes "PGM")
    ∷ (115, codes "L2TP")
    ∷ (116, codes "DDX")
    ∷ (117, codes "IATP")
    ∷ (118, codes "STP")
    ∷ (119, codes "SRP")
    ∷ (120, codes "UTI")
    ∷ (121, codes "SMP")
    ∷ (123, codes "PTP")
    ∷ (125, codes "FIRE")
    ∷ (126, codes "CRTP")
    ∷ (127, codes "CRUDP")
    ∷ (128, codes "SSCOPMCE")
    ∷ (129, codes "IPLT")
    ∷ (130, codes "SPS")
    ∷ (131, codes "PIPE")
    ∷ (132, codes "SCTP")
    ∷ (133, codes "FC")
    ∷ (134, codes "RSVP-E2E-IGNORE")
    ∷ (136, codes "UDPLite")
    ∷ (137, codes "MPLS-in-IP")
    ∷ (138, codes "manet")
    ∷ (139, codes "HIP")
    ∷ (140, codes "Shim6")
    ∷ (141, codes "WESP")
    ∷ (142, codes "ROHC")
    ∷ (143, codes "Ethernet")
    ∷ (144, codes "AGGFRAG")
    ∷ (145, codes "NSH")
    ∷ (255, codes "Reserved")
    ∷ []
