-- ===== src/Monitor/Parser/Address/Unix.antt =====
-- syscallParser.go: the path of a unix socket.
use kube_armor.Base.{
  Bool, false, length, none, some, ◌||◌, ◌++◌, ◌∙◌, ◌≡◌, ◌∷◌, [], ap, arith, refl, sym,
}
use kube_armor.Base.Comparable.{nat_eq, text_beq, ◌==◌}
use kube_armor.Base.GoMap.{get, put}
use kube_armor.Base.Text.{Text, codes}
use kube_armor.Monitor.Parser.Address.{before_null, read_sockaddr, read_unix, sun_path, widen}
use kube_armor.Monitor.Parser.Names.{get_socket_domain, name_or}
use kube_armor.Monitor.Parser.Sockets.{socket_domains}
use kube_armor.Monitor.Parser.Reader.{little_endian, read_full, read_little}
use kube_armor.Monitor.Parser.Reader.Bounds.{read_full-append}

unfoldable pub has_null : Text → Bool
has_null [] = false
has_null (b ∷ s) = b == 0 || has_null s

before_null-none : (s : Text) → has_null s ≡ false → before_null s ≡ none
unfolding has_null before_null
before_null-none [] h = refl
before_null-none (b ∷ s) h = ground (arith, h, before_null-none s)

before_null-found : (s rest : Text) → has_null s ≡ false → before_null (s ++ (0 ∷ rest)) ≡ some s
unfolding has_null before_null
before_null-found [] rest h = refl
before_null-found (b ∷ s) rest h = ground (arith, h, before_null-found s rest)

module _ (ipv6 : Text → Text) (path rest : Text) where
  read_full_108 : length path ≡ 108 → read_full 108 (path ++ rest) ≡ some (path, rest)
  read_full_108 h = ap (λ n. read_full n (path ++ rest)) (sym h) ∙ read_full-append path rest

  read_sockaddr-unix :
      length path ≡ 108
      → read_sockaddr ipv6 (1 ∷ 0 ∷ (path ++ rest))
        ≡ some ((codes "sa_family", codes "AF_UNIX") ∷ (codes "sun_path", sun_path path) ∷ [], rest)
  unfolding read_sockaddr read_unix read_little read_full little_endian put get get_socket_domain
      socket_domains widen name_or text_beq
  read_sockaddr-unix h = rw (read_unix, read_full_108 h) refl

  -- The address of a unix socket has the path up to its null byte.
  pub read_sockaddr-null :
      (before after : Text)
      → path ≡ before ++ (0 ∷ after)
      → has_null before ≡ false
      → length path ≡ 108
      → read_sockaddr ipv6 (1 ∷ 0 ∷ (path ++ rest))
        ≡ some ((codes "sa_family", codes "AF_UNIX") ∷ (codes "sun_path", before) ∷ [], rest)
  unfolding sun_path
  read_sockaddr-null before after e h l =
      read_sockaddr-unix l ∙ rw (e, sun_path, before_null-found before after h) refl

  -- A path that fills all of its 108 bytes, and so has no null byte, is lost.
  pub read_sockaddr_loses_path :
      has_null path ≡ false
      → length path ≡ 108
      → read_sockaddr ipv6 (1 ∷ 0 ∷ (path ++ rest))
        ≡ some ((codes "sa_family", codes "AF_UNIX") ∷ (codes "sun_path", []) ∷ [], rest)
  unfolding sun_path
  read_sockaddr_loses_path h l = read_sockaddr-unix l ∙ rw (sun_path, before_null-none path h) refl
