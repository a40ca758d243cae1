-- ===== src/ClientIp.antt =====
-- internal/relay/handler.go: which address a connection is counted under. The parsers of net,
-- net/netip and strings are parameters.
use sesori_relay_server.Prelude.{
  ◌≡◌, ◌⊎◌, refl, inl, inr, Bool, true, false, arith, List, [], ◌∷◌, Option, none, some, Text,
  if◌then◌else◌, Option-cases,
}

-- `split_host` is the host of `net.SplitHostPort`, `parse_addr` the text of
-- `netip.ParseAddr(..).Unmap()`; `none` is an error.
pub record Net : Type 0 where
  pub trim_space : Text → Text
  pub split_host : Text → Option Text
  pub parse_addr : Text → Option Text

pub data ClientIpSource : Type 0 where
  remote_addr cf_connecting_ip : ClientIpSource

pub record ClientIpInfo : Type 0 where
  pub address : Text
  pub peer_address : Text
  pub source : ClientIpSource

abbrev pub or_else : Option Text → Text → Text
or_else none d = d
or_else (some a) d = a

unfoldable pub canonical_ip_address : Net → Text → Option Text
canonical_ip_address net value = net.parse_addr (net.trim_space value)

unfoldable pub remote_ip_address : Net → Text → Text
unfolding canonical_ip_address
remote_ip_address net addr =
    let value = net.trim_space addr in
    let host = or_else (net.split_host value) value in or_else (canonical_ip_address net host) host

unfoldable pub from_peer : Text → ClientIpInfo
from_peer peer = record { address = peer; peer_address = peer; source = remote_addr }

unfoldable pub from_header : Text → Option Text → ClientIpInfo
unfolding from_peer
from_header peer none = from_peer peer
from_header peer (some address) = record {
  address = address;
  peer_address = peer;
  source = cf_connecting_ip;
}

-- `values` are the values of the CF-Connecting-IP header.
unfoldable pub from_values : Net → Text → List Text → ClientIpInfo
unfolding from_peer from_header
from_values net peer [] = from_peer peer
from_values net peer (value ∷ []) = from_header peer (canonical_ip_address net value)
from_values net peer (_ ∷ _ ∷ _) = from_peer peer

unfoldable pub resolve_client_ip : Net → Text → List Text → Bool → ClientIpInfo
unfolding remote_ip_address from_values
resolve_client_ip net addr values trust =
    if trust
    then from_values net (remote_ip_address net addr) values
    else from_peer (remote_ip_address net addr)

-- resolveClientIP always reports the peer's address. The address that counts is this one, with the
-- source remote-addr; or the source is CF-Connecting-IP, and then the header is trusted, it was
-- given exactly once, and the address that counts is its canonical form.
pub resolve_client_ip_cases :
    (net : Net) (addr : Text) (values : List Text) (trust : Bool)
    → let info = resolve_client_ip net addr values trust in
      (info.peer_address ≡ remote_ip_address net addr)
      × (((info.source ≡ remote_addr) × (info.address ≡ remote_ip_address net addr))
          ⊎ ((value : Text) × (info.source ≡ cf_connecting_ip)
              × (trust ≡ true)
              × (values ≡ value ∷ [])
              × (canonical_ip_address net value ≡ some info.address)))
unfolding resolve_client_ip
resolve_client_ip_cases net addr values false = (refl, inl (refl, refl))
resolve_client_ip_cases net addr [] true = (refl, inl (refl, refl))
resolve_client_ip_cases net addr (value ∷ []) true =
    elim (Option-cases (canonical_ip_address net value)) [
      | inl bad ↦ (ground arith, inl (ground arith, ground arith))
      | inr (a, good) ↦ (ground arith, inr (value, ground arith, refl, refl, ground arith))
    ]
resolve_client_ip_cases net addr (v ∷ w ∷ vs) true = (refl, inl (refl, refl))

-- A spoofed header is ignored where it is not trusted: the result does not depend on it.
pub resolve_client_ip_untrusted :
    (net : Net) (addr : Text) (values forged : List Text)
    → resolve_client_ip net addr values false ≡ resolve_client_ip net addr forged false
unfolding resolve_client_ip
resolve_client_ip_untrusted net addr values forged = refl
