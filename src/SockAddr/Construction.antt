-- ===== src/SockAddr/Construction.antt =====
-- library/SockAddr.cpp: the constructors from an address and a port, those from the structures of the
-- sockets, the conversions back, and name. `none` is a failed assertion or `std::abort`.
use cpp_interface.Prelude.{ℕ, ◌≡◌, refl, ap, ◌<◌, Option, none, some, List, ◌>>=◌, replicate}
use cpp_interface.SockAddr.{
  SockAddr, inet, inet6, unspecified, af_inet, af_inet6, htons, set_addr, set_addr6, set_port, port,
  domain, addr_size, of_storage,
}
use cpp_interface.SockAddr.Fields.{ntohs-htons}

-- `std::memset` of the storage, and the family.
abbrev pub cleared : SockAddr
cleared = inet (htons 0) (replicate 4 0) (replicate 8 0)

abbrev pub cleared6 : SockAddr
cleared6 = inet6 (htons 0) (replicate 4 0) (replicate 16 0) (replicate 4 0)

-- `SockAddr (in_addr const &, std::uint16_t)`; that of an `in_addr_t` calls it.
unfoldable pub of_addr : (addr : List ℕ) → (port_ : ℕ) → Option SockAddr
of_addr addr port_ = set_addr cleared addr >>= λ a. set_port a port_

-- `SockAddr (in6_addr const &, std::uint16_t)`
unfoldable pub of_addr6 : (addr : List ℕ) → (port_ : ℕ) → Option SockAddr
of_addr6 addr port_ = set_addr6 cleared6 addr >>= λ a. set_port a port_

-- `SockAddr (sockaddr_in const &)`, and `operator sockaddr_in const & ()`.
unfoldable pub of_sockaddr_in : SockAddr → Option SockAddr
of_sockaddr_in (inet p a z) = some (inet p a z)
of_sockaddr_in (inet6 p f a s) = none
of_sockaddr_in (unspecified f) = none

-- `SockAddr (sockaddr_in6 const &)`, and `operator sockaddr_in6 const & ()`.
unfoldable pub of_sockaddr_in6 : SockAddr → Option SockAddr
of_sockaddr_in6 (inet p a z) = none
of_sockaddr_in6 (inet6 p f a s) = some (inet6 p f a s)
of_sockaddr_in6 (unspecified f) = none

-- `inet_ntop` is that of the system.
unfoldable pub name :
    (inet_ntop : ℕ → List ℕ → Option (List ℕ)) → SockAddr → Option (Option (List ℕ))
name inet_ntop (inet p a z) = some (inet_ntop af_inet a)
name inet_ntop (inet6 p f a s) = some (inet_ntop af_inet6 a)
name inet_ntop (unspecified f) = none

-- What is made of an address and a port has that port, the family and the size of the structure, is
-- named by the address, and is copied whole by the constructors of its family only.
of_addr_lem :
    (inet_ntop : ℕ → List ℕ → Option (List ℕ)) (addr : List ℕ) (n : ℕ)
    → n < 65536
    → (a : SockAddr) × ((of_addr addr n ≡ some a)
        × (port a ≡ some n)
        × (domain a ≡ some af_inet)
        × (addr_size a ≡ some 16)
        × (name inet_ntop a ≡ some (inet_ntop af_inet addr))
        × (of_storage a ≡ some a)
        × (of_sockaddr_in a ≡ some a)
        × (of_sockaddr_in6 a ≡ none))
unfolding of_addr set_addr set_port port domain addr_size name of_storage of_sockaddr_in
    of_sockaddr_in6
of_addr_lem inet_ntop addr n h = (
  inet (htons n) addr (replicate 8 0),
  (refl, ap some (ntohs-htons n h), refl, refl, refl, refl, refl, refl),
)

of_addr6_lem :
    (inet_ntop : ℕ → List ℕ → Option (List ℕ)) (addr : List ℕ) (n : ℕ)
    → n < 65536
    → (a : SockAddr) × ((of_addr6 addr n ≡ some a)
        × (port a ≡ some n)
        × (domain a ≡ some af_inet6)
        × (addr_size a ≡ some 28)
        × (name inet_ntop a ≡ some (inet_ntop af_inet6 addr))
        × (of_storage a ≡ some a)
        × (of_sockaddr_in6 a ≡ some a)
        × (of_sockaddr_in a ≡ none))
unfolding of_addr6 set_addr6 set_port port domain addr_size name of_storage of_sockaddr_in
    of_sockaddr_in6
of_addr6_lem inet_ntop addr n h = (
  inet6 (htons n) (replicate 4 0) addr (replicate 4 0),
  (refl, ap some (ntohs-htons n h), refl, refl, refl, refl, refl, refl),
)
