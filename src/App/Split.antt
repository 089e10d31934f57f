-- ===== src/App/Split.antt =====
-- The two servers of serveDual of cmd/app/main.go, and the exit status of its main.
use image_optimizer.Prelude.{
  ℕ, ◌≡◌, ◌≤◌, leb, Option, none, Bool, true, false, not, ◌&&◌, ◌||◌, any, some, ok,
}
use image_optimizer.Text.{Bytes}
use image_optimizer.Config.{Config}
use image_optimizer.Http.Routes.{Route, new_router, is_write}
use image_optimizer.App.{
  System, Server, ClientAuth, no_client_cert, request_client_cert, require_any_client_cert,
  verify_client_cert_if_given, require_and_verify_client_cert, version_tls12, Tls,
}

-- Of two servers the first answers no request that changes an image, and together they answer what
-- one server answers.
abbrev pub IsSplit : Server → Server → Type 0
IsSplit a b =
    (fits : Route → Bool)
    → (any fits new_router ≡ any fits a.routes || any fits b.routes)
      × (any (λ r. fits r && is_write r.endpoint) a.routes ≡ false)
      × (any (λ r. fits r && not (is_write r.endpoint)) b.routes ≡ false)

-- A client that opens a connection: the certificate that it shows, and its TLS version.
pub record Peer : Type 0 where
  pub cert : Option Bytes
  pub version : ℕ

-- Whom crypto/tls lets in by its certificate; `verify` is the check against a pool.
abbrev pub lets_in : (Bytes → Bytes → Bool) → Bytes → ClientAuth → Option Bytes → Bool
lets_in verify pool no_client_cert cert = true
lets_in verify pool request_client_cert cert = true
lets_in verify pool require_any_client_cert none = false
lets_in verify pool require_any_client_cert (some c) = true
lets_in verify pool verify_client_cert_if_given none = true
lets_in verify pool verify_client_cert_if_given (some c) = verify pool c
lets_in verify pool require_and_verify_client_cert none = false
lets_in verify pool require_and_verify_client_cert (some c) = verify pool c

abbrev pub admits : (Bytes → Bytes → Bool) → Option Tls → Peer → Bool
admits verify none p = true
admits verify (some t) p =
    leb t.min_version p.version && lets_in verify t.client_cas t.client_auth p.cert

-- Whoever reaches a route of the server that changes images has TLS 1.2 or later and has shown a
-- certificate that is verified against `pem`.
abbrev pub IsGuarded : Bytes → Server → Type 0
IsGuarded pem srv =
    (fits : Route → Bool) (verify : Bytes → Bytes → Bool) (p : Peer)
    → any (λ r. fits r && is_write r.endpoint) srv.routes ≡ true
    → admits verify srv.tls p ≡ true
    → (version_tls12 ≤ p.version) × (cert : Bytes) × (p.cert ≡ some cert) × (verify pem cert ≡ true)

module _ {B C H D P W : Type 0} (sys : System B C H D P W) where
  -- A pool of certificates that were read from the configured file.
  abbrev pub HasCertificates : Config → Bytes → Type 0
  HasCertificates cfg pem =
      (sys.read_file cfg.tls_client_ca_file ≡ ok pem) × (sys.has_certificates pem ≡ true)

  abbrev pub IsPoolOf : Bytes → Tls → Type 0
  IsPoolOf pem tls = tls ≡ record {
    client_cas = pem;
    client_auth = require_and_verify_client_cert;
    min_version = version_tls12;
  }
