-- ===== src/Middleware/ClientIp/Laws.antt =====
-- api/internal/middleware/clientip.go: which requests a header can speak for.
use radioledger.Base.{◌≡◌, refl, false, List}
use radioledger.Base.Text.{is_empty}
use radioledger.Middleware.ClientIp.{Net, Request, client_ip, remote_ip_from_addr, is_trusted_proxy}

module _ {Addr Prefix : Type 0} (net : Net Addr Prefix) (trusted : List Prefix) where
  -- A request from an address that is no trusted proxy counts as coming from it.
  pub client_ip-untrusted :
      (r : Request)
      → is_empty (remote_ip_from_addr net r.remote_addr) ≡ false
      → is_trusted_proxy net trusted (remote_ip_from_addr net r.remote_addr) ≡ false
      → client_ip net trusted r ≡ remote_ip_from_addr net r.remote_addr
  unfolding client_ip
  client_ip-untrusted r e f = rw (e, f) refl
