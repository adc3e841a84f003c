-- ===== src/Middleware/ClientIp.antt =====
-- api/internal/middleware/clientip.go: the address that a request counts as coming from. Go's net
-- and netip are a record of functions; the theorems hold for any such functions.
pub mod Laws
use radioledger.Base.{
  ℕ, Bool, true, false, Bytes, List, [], ◌∷◌, Option, none, some, any, if◌then◌else◌,
}
use radioledger.Base.Text.{is_empty, trim_space, split}

-- What is used of net and net/netip: ParseAddr, Addr.String, `==` on addresses, Prefix.Contains,
-- and the host of SplitHostPort, `none` where they report an error.
pub record Net (Addr Prefix : Type 0) : Type 0 where
  pub parse_addr : Bytes → Option Addr
  pub addr_string : Addr → Bytes
  pub same_addr : Addr → Addr → Bool
  pub contains : Prefix → Addr → Bool
  pub split_host_port : Bytes → Option Bytes

-- The parts of a request that the guards read; a header or a parameter that is missing is empty.
pub record Request : Type 0 where
  pub remote_addr : Bytes
  pub x_forwarded_for : Bytes
  pub x_real_ip : Bytes
  pub authorization : Bytes
  pub path : Bytes
  pub stream_token : Bytes
  pub stream_ticket : Bytes
  pub logbook_uuid : Bytes

module _ {Addr Prefix : Type 0} (net : Net Addr Prefix) where
  -- The address as netip prints it, or the text itself.
  unfoldable pub printed_or : Bytes → Bytes → Bytes
  printed_or text default = elim (net.parse_addr text) [
    | some addr ↦ net.addr_string addr
    | none ↦ default
  ]

  abbrev host_or : Option Bytes → Bytes → Bytes
  host_or none text = printed_or text text
  host_or (some []) text = printed_or text text
  host_or (some (c ∷ host)) text = printed_or (c ∷ host) (c ∷ host)

  abbrev remote_ip_trimmed : Bytes → Bytes
  remote_ip_trimmed [] = []
  remote_ip_trimmed (c ∷ s) = host_or (net.split_host_port (c ∷ s)) (c ∷ s)

  unfoldable pub remote_ip_from_addr : Bytes → Bytes
  unfolding printed_or
  remote_ip_from_addr remote_addr = remote_ip_trimmed (trim_space remote_addr)

  abbrev within : List Prefix → Option Addr → Bool
  within prefixes none = false
  within prefixes (some addr) = any (λ p. net.contains p addr) prefixes

  -- `isTrustedProxy`, over the configured prefixes.
  unfoldable pub is_trusted_proxy : List Prefix → Bytes → Bool
  is_trusted_proxy [] ip = false
  is_trusted_proxy (p ∷ prefixes) ip = within (p ∷ prefixes) (net.parse_addr ip)

  -- The first of the parts that is an address. An empty part is skipped.
  abbrev candidate : Bytes → Option Addr
  candidate [] = none
  candidate (c ∷ s) = net.parse_addr (c ∷ s)

  unfoldable pub first_address : List Bytes → Option Addr
  first_address [] = none
  first_address (part ∷ parts) =
      let rest = first_address parts in
      elim (candidate (trim_space part)) [ some addr ↦ some addr | none ↦ rest ]

  abbrev from_real_ip : Bytes → Bytes → Bytes
  from_real_ip remote [] = remote
  from_real_ip remote (c ∷ s) = printed_or (c ∷ s) remote

  abbrev forwarded : Bytes → Option Addr
  forwarded [] = none
  forwarded (c ∷ s) = first_address (split b',' (c ∷ s))

  unfoldable pub from_headers : Bytes → Request → Bytes
  unfolding first_address printed_or
  from_headers remote r = elim (forwarded (trim_space r.x_forwarded_for)) [
    | some addr ↦ net.addr_string addr
    | none ↦ from_real_ip remote (trim_space r.x_real_ip)
  ]

  unfoldable pub client_ip : List Prefix → Request → Bytes
  client_ip trusted r =
      let remote = remote_ip_from_addr r.remote_addr in
      if is_empty remote
      then trim_space r.remote_addr
      else if is_trusted_proxy trusted remote
      then from_headers remote r
      else remote
