-- ===== src/Http/Routes.antt =====
-- The routes of internal/http/router.go. The router of package chi is a parameter: how it tells which
-- routes fit a request.
use image_optimizer.Prelude.{
  codes, ◌≡◌, Bool, true, false, not, ◌&&◌, ◌||◌, List, [], ◌∷◌, any, arith,
}
use image_optimizer.Text.{Bytes}

pub data Method : Type 0 where
  get head post delete any_method : Method

pub data Endpoint : Type 0 where
  health ready metrics upload copy image image_head image_delete : Endpoint

pub record Route : Type 0 where
  pub method : Method
  pub pattern : Bytes
  pub endpoint : Endpoint

abbrev pub route : Method → Bytes → Endpoint → Route
route m p e = record { method = m; pattern = p; endpoint = e }

-- NewRouter
abbrev pub new_router : List Route
new_router =
    route get (codes "/health") health
    ∷ route get (codes "/ready") ready
    ∷ route any_method (codes "/metrics") metrics
    ∷ route post (codes "/images/") upload
    ∷ route post (codes "/images/{id}/copy") copy
    ∷ route get (codes "/images/{id}") image
    ∷ route head (codes "/images/{id}") image_head
    ∷ route delete (codes "/images/{id}") image_delete
    ∷ []

-- mountPublicRoutes, which NewPublicRouter calls
abbrev pub new_public_router : List Route
new_public_router =
    route get (codes "/health") health
    ∷ route get (codes "/ready") ready
    ∷ route any_method (codes "/metrics") metrics
    ∷ route get (codes "/images/{id}") image
    ∷ route head (codes "/images/{id}") image_head
    ∷ []

-- mountWriteRoutes, which NewWriteRouter calls
abbrev pub new_write_router : List Route
new_write_router =
    route post (codes "/images/") upload
    ∷ route post (codes "/images/{id}/copy") copy
    ∷ route delete (codes "/images/{id}") image_delete
    ∷ []

-- The endpoints that change images.
abbrev pub is_write : Endpoint → Bool
is_write upload = true
is_write copy = true
is_write image_delete = true
is_write _ = false

-- The two routers of a server with mTLS.
pub new_router-any :
    (fits : Route → Bool)
    → (any fits new_router ≡ any fits new_public_router || any fits new_write_router)
      × (any (λ r. fits r && is_write r.endpoint) new_public_router ≡ false)
      × (any (λ r. fits r && not (is_write r.endpoint)) new_write_router ≡ false)
new_router-any fits = (ground arith, ground arith, ground arith)
