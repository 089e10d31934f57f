-- ===== src/Imgproxy/Client.antt =====
-- internal/imgproxy/client.go: the HTTP client of imgproxy. Package net/http is a parameter.
use image_optimizer.Prelude.{
  ℕ, codes, Bool, ◌&&◌, ◌==◌, [], ◌∷◌, ◌++◌, Option, none, some, if◌then◌else◌, ltb, length, take,
  Error, errorf, wrap, Result, ok, err,
}
use image_optimizer.Text.{Bytes, is_empty, has_prefix, slash, Unicode, trim_space}
use image_optimizer.Text.Number.{format}
use image_optimizer.Services.{Fetcher}
use image_optimizer.Services.Calls.{Action, lift, ◌>>◌, context}

-- strings.TrimRight with the set of bytes where `p` holds
unfoldable pub trim_right : (ℕ → Bool) → Bytes → Bytes
unfolding is_empty
trim_right p [] = []
trim_right p (c ∷ s) = let rest = trim_right p s in if p c && is_empty rest then [] else c ∷ rest

-- A response whose body, a `B`, is still to be read.
pub record Answer (B : Type 0) : Type 0 where
  pub status_code : ℕ
  pub body : B

-- Package net/http: a request for a URL, its response, and the reading and closing of the body.
pub record Http (B W : Type 0) : Type 0 where
  pub build : Bytes → Result (Unit {0})
  pub get : Bytes → Action W (Answer B)
  pub read_all : B → Action W Bytes
  pub close : B → W → W
  pub unicode : Unicode

pub record Client : Type 0 where
  pub base_url : Bytes

-- New
unfoldable pub new : Bytes → Client
new base_url = record { base_url = trim_right (λ c. c == slash) base_url }

unfoldable pub request_url : Client → Bytes → Bytes
request_url c path =
    if has_prefix (slash ∷ []) path then c.base_url ++ path else c.base_url ++ (slash ∷ path)

abbrev pub cut : ℕ → Bytes → Bytes
cut max s = if ltb max (length s) then take max s else s

-- The error of a status that is not 200, with at most 200 bytes of the body.
abbrev pub status_error : Unicode → ℕ → Bytes → Error
status_error u code body =
    errorf
      (codes "imgproxy: status " ++ (format code ++ (codes ": " ++ cut 200 (trim_space u body))))

module _ {B W : Type 0} (http : Http B W) where
  abbrev pub by_status : ℕ → Bytes → Result Bytes
  by_status code body = if code == 200 then ok body else err (status_error http.unicode code body)

  -- The body is closed when Fetch returns.
  unfoldable pub after_read : Answer B → Result Bytes × W → Result Bytes × W
  after_read a (ok body, w) = (by_status a.status_code body, http.close a.body w)
  after_read a (err e, w) = (err (wrap (codes "imgproxy: read body") e), http.close a.body w)

  unfoldable pub after_get : Result (Answer B) × W → Result Bytes × W
  after_get (ok a, w) = after_read a (http.read_all a.body w)
  after_get (err e, w) = (err (wrap (codes "imgproxy: fetch") e), w)

  abbrev pub fetch_url : Bytes → Action W Bytes
  fetch_url url = do
    context (codes "imgproxy: build request") (lift (http.build url))
    λ w. after_get (http.get url w)

  -- Fetch
  unfoldable pub fetch : Option Client → Bytes → Action W Bytes
  fetch none path w = (err (errorf (codes "imgproxy: client not configured")), w)
  fetch (some c) path w =
      if is_empty c.base_url
      then (err (errorf (codes "imgproxy: client not configured")), w)
      else fetch_url (request_url c path) w

  abbrev pub fetcher : Option Client → Fetcher W
  fetcher c = record { fetch = fetch c }
