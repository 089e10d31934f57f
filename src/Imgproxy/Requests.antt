-- ===== src/Imgproxy/Requests.antt =====
-- What internal/imgproxy/client.go asks of imgproxy, and what it returns.
use image_optimizer.Prelude.{
  ℕ, zero, suc, ◌≡◌, refl, ap, sym, Bool, false, ◌&&◌, ◌==◌, [], ◌∷◌, ◌++◌, some, if◌then◌else◌,
  Result, ok, err, Bool-cases, inl, inr, arith, Result-cases,
}
use image_optimizer.Text.{Bytes, is_empty, has_prefix, slash, Unicode}
use image_optimizer.Transform.{Params}
use image_optimizer.Imgproxy.{build_path}
use image_optimizer.Imgproxy.Client.{
  trim_right, Answer, Http, Client, new, request_url, by_status, after_read, after_get, fetch_url,
  fetch,
}

-- The text ends with no byte where `p` holds.
abbrev pub IsTrimmed : (ℕ → Bool) → Bytes → Type 0
IsTrimmed p [] = Unit {0}
IsTrimmed p (c ∷ []) = p c ≡ false
IsTrimmed p (c ∷ d ∷ s) = IsTrimmed p (d ∷ s)

abbrev pub slashes : ℕ → Bytes
slashes zero = []
slashes (suc n) = slash ∷ slashes n

-- The base URL without the slashes at its end.
abbrev pub IsBase : Bytes → Bytes → Type 0
IsBase s b = IsTrimmed (λ c. c == slash) b × (n : ℕ) × (s ≡ b ++ slashes n)

cons-IsBase :
    (c : ℕ) (s b : Bytes)
    → IsBase s b
    → IsBase (c ∷ s) (if (c == slash) && is_empty b then [] else c ∷ b)
unfolding is_empty
cons-IsBase c s [] (t, n, e) = elim (Bool-cases (c == slash)) [
  | inl q ↦ rw q (tt, suc n, ground (arith, e))
  | inr q ↦ rw q (q, n, ap (λ r. c ∷ r) e)
]
cons-IsBase c s (d ∷ b) (t, n, e) = elim (Bool-cases (c == slash)) [
  | inl q ↦ rw q (t, n, ap (λ r. c ∷ r) e)
  | inr q ↦ rw q (t, n, ap (λ r. c ∷ r) e)
]

trim_right-IsBase : (s : Bytes) → IsBase s (trim_right (λ c. c == slash) s)
unfolding trim_right
trim_right-IsBase [] = (tt, zero, refl)
trim_right-IsBase (c ∷ s) = cons-IsBase c s (trim_right (λ c. c == slash) s) (trim_right-IsBase s)

pub new-IsBase : (base : Bytes) → IsBase base (new base).base_url
unfolding new
new-IsBase base = trim_right-IsBase base

pub request_url-build_path :
    (c : Client) (u : Unicode) (bucket original : Bytes) (p : Params)
    → request_url c (build_path u bucket original p) ≡ c.base_url ++ build_path u bucket original p
unfolding request_url build_path has_prefix
request_url-build_path c u bucket original p = refl

module _ {B W : Type 0} (http : Http B W) where
  -- imgproxy answered the request for `url` with status 200, and `body` was read from the answer.
  abbrev pub IsFetched : Bytes → Bytes → W → W → Type 0
  IsFetched url body w w' =
      (a : Answer B) × (w1 : W) × (w2 : W) × (http.get url w ≡ (ok a, w1))
      × (http.read_all a.body w1 ≡ (ok body, w2))
      × (a.status_code ≡ 200)
      × (w' ≡ http.close a.body w2)

  by_status_ok :
      (code : ℕ) (body b : Bytes) → by_status http code body ≡ ok b → (code ≡ 200) × (body ≡ b)
  by_status_ok code body b h = elim (Bool-cases (code == 200)) [
    | inl q ↦ (let k = rw q at h in (ground arith, cc))
    | inr q ↦ (let k = rw q at h in cc)
  ]

  after_read_ok :
      (a : Answer B) (r : Result Bytes) (w : W) (body : Bytes) (w' : W)
      → after_read http a (r, w) ≡ (ok body, w')
      → (r ≡ ok body) × (a.status_code ≡ 200) × (w' ≡ http.close a.body w)
  unfolding after_read
  after_read_ok a (ok s) w body w' h =
      let (c, e) = by_status_ok a.status_code s body (ap (λ (p : Result Bytes × W). p.0) h) in
      (ap ok e, c, sym (ap (λ (p : Result Bytes × W). p.1) h))
  after_read_ok a (err x) w body w' h = let k = ap (λ (p : Result Bytes × W). p.0) h in cc

  after_get_ok :
      (r : Result (Answer B)) (w : W) (body : Bytes) (w' : W)
      → after_get http (r, w) ≡ (ok body, w')
      → (a : Answer B) × (w2 : W) × (r ≡ ok a)
        × (http.read_all a.body w ≡ (ok body, w2))
        × (a.status_code ≡ 200)
        × (w' ≡ http.close a.body w2)
  unfolding after_get
  after_get_ok (ok a) w body w' h =
      let (r, w2) = http.read_all a.body w in
      let (e, c, k) = after_read_ok a r w2 body w' h in (a, w2, refl, ap (λ s. (s, w2)) e, c, k)
  after_get_ok (err x) w body w' h = let k = ap (λ (p : Result Bytes × W). p.0) h in cc

  built_ok :
      (url body : Bytes) (w w' : W) → fetch_url http url w ≡ (ok body, w') → IsFetched url body w w'
  built_ok url body w w' h = elim (Result-cases (http.build url)) [
    | inr (e, b) ↦ (let k = ap (λ (p : Result Bytes × W). p.0) (rw b at h) in cc)
    | inl (t, b) ↦
        let (r, w1) = http.get url w in
        let (a, w2, g, k0, k1, k2) = after_get_ok r w1 body w' (rw b at h) in
        (a, w1, w2, ap (λ s. (s, w1)) g, k0, k1, k2)
  ]

  -- If Fetch, on a client that New made of a base URL, returns a body for a path that BuildPath
  -- built, then imgproxy was asked for the base URL without its trailing slashes followed by that
  -- path, answered with status 200, that body was read, and the response was closed.
  pub fetch-IsFetched :
      (base : Bytes) (u : Unicode) (bucket original : Bytes) (p : Params) (body : Bytes) (w w' : W)
      → fetch http (some (new base)) (build_path u bucket original p) w ≡ (ok body, w')
      → (b : Bytes) × IsBase base b × IsFetched (b ++ build_path u bucket original p) body w w'
  unfolding fetch
  fetch-IsFetched base u bucket original p body w w' h =
      let c = new base in
      let path = build_path u bucket original p in
      let url = request_url-build_path c u bucket original p in
      (
        c.base_url,
        new-IsBase base,
        elim (Bool-cases (is_empty c.base_url)) [
          | inl e ↦ (let k = ap (λ (p : Result Bytes × W). p.0) (rw e at h) in cc)
          | inr e ↦ built_ok (c.base_url ++ path) body w w' (rw (e, url) at h)
        ],
      )
