-- ===== src/Monitor/Parser/Address.antt =====
-- syscallParser.go, `readSockaddrFromBuff`. How net.IP prints sixteen bytes is an argument.
pub mod Unix
use kube_armor.Base.{
  List, Option, if◌then◌else◌, length, ltb, none, some, ◌+◌, ◌-◌, ◌/◌, ◌%◌, ◌^◌, ◌∷◌, ◌++◌, [], ℕ,
}
use kube_armor.Base.Comparable.{nat_eq, text_eq, ◌==◌}
use kube_armor.Base.Decimal.{itoa}
use kube_armor.Base.GoMap.{GoMap, put}
use kube_armor.Base.Text.{Text, codes}
use kube_armor.Monitor.Parser.Names.{get_socket_domain}
use kube_armor.Monitor.Parser.Reader.{
  Read, ◌>>=◌, read_big, read_byte_slice, read_full, read_little,
}

-- `net.IP.String` of the four bytes of an address.
unfoldable pub read_uint32_ip : ℕ → Text
read_uint32_ip addr =
    itoa (addr / 2 ^ 24)
    ++ (b'.'
        ∷ (itoa (addr / 2 ^ 16 % 256)
            ++ (b'.' ∷ (itoa (addr / 2 ^ 8 % 256) ++ (b'.' ∷ itoa (addr % 256))))))

-- The bytes before the first null byte, none where there is no such byte.
unfoldable pub before_null : Text → Option Text
before_null [] = none
before_null (b ∷ s) =
    let rest = before_null s in
    if b == 0 then some [] else elim rest [ none ↦ none | some t ↦ some (b ∷ t) ]

-- `sunPath` stays empty where no byte is null.
unfoldable pub sun_path : Text → Text
sun_path s = elim (before_null s) [ none ↦ [] | some t ↦ t ]

-- `uint32(family)` of an int16.
unfoldable pub widen : ℕ → ℕ
widen family = if ltb family (2 ^ 15) then family else family + (2 ^ 32 - 2 ^ 16)

module _ (ipv6 : Text → Text) where
  unfoldable pub read_unix : GoMap Text Text → Text → Read (GoMap Text Text)
  read_unix res s = do
    (path, s₁) ← read_full 108 s
    some (put (codes "sun_path") (sun_path path) res, s₁)

  unfoldable pub read_inet : GoMap Text Text → Text → Read (GoMap Text Text)
  read_inet res s = do
    (port, s₁) ← read_big 2 s
    (addr, s₂) ← read_big 4 s₁
    (zeros, s₃) ← read_byte_slice 8 s₂
    some (put (codes "sin_addr") (read_uint32_ip addr) (put (codes "sin_port") (itoa port) res), s₃)

  -- The copy into sixteen bytes is always whole.
  unfoldable pub read_inet6 : GoMap Text Text → Text → Read (GoMap Text Text)
  read_inet6 res s = do
    (port, s₁) ← read_big 2 s
    (flow, s₂) ← read_big 4 s₁
    (addr, s₃) ← read_byte_slice 16 s₂
    some (put (codes "sin_addr") (ipv6 addr) (put (codes "sin_port") (itoa port) res), s₃)

  unfoldable pub read_sockaddr : Text → Read (GoMap Text Text)
  read_sockaddr s = do
    (family, s₁) ← read_little 2 s
    let res : GoMap Text Text = put (codes "sa_family") (get_socket_domain (widen family)) []
    if family == 1
        then read_unix res s₁
        else if family == 2
        then read_inet res s₁
        else if family == 10
        then read_inet6 res s₁
        else some (res, s₁)
