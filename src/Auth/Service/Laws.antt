-- ===== src/Auth/Service/Laws.antt =====
-- The windows of the rate limits.
use lovechapter.Prelude.{ℕ, ◌+◌, ◌*◌, ◌/◌, ◌≤◌, ◌<◌, ◌≡◌, ap, arith}
use native.Mathlib.Nat.{div-add-mod', mod-lt}
use lovechapter.Text.{Text}
use lovechapter.Auth.Types.{AuthRateLimitScope, RateLimitAttempt}
use lovechapter.Auth.Service.{Dependencies, attempt_of, limit_of, window_seconds}

window_bounds : (now w : ℕ) → 0 < w → (now / w * w ≤ now) × (now < now / w * w + w)
window_bounds now w h = omega (arith, div-add-mod' now w, mod-lt now h)

-- The window of a time is the only one that the time is in.
window_unique : (w p q t : ℕ) → p * w ≤ t → t < p * w + w → q * w ≤ t → t < q * w + w → p ≡ q
window_unique w p q t a b c e = grind arith

window_positive : (s : AuthRateLimitScope) → 0 < window_seconds s * 1000
window_positive s = ground arith

abbrev at_bucket : Dependencies → AuthRateLimitScope → Text → ℕ → RateLimitAttempt
at_bucket d s value n = record {
  scope = s;
  key_hash = d.rate_limit_key value;
  bucket_started_at = n * (window_seconds s * 1000);
  expires_at = n * (window_seconds s * 1000) + window_seconds s * 1000;
  limit = limit_of s;
}

-- The bucket of an attempt is the window that its time is in: it begins at or before the time and ends
-- after it, and every later attempt before its end, of the same scope and value, has the same bucket.
pub attempt_of-window :
    (d : Dependencies) (now later : ℕ) (s : AuthRateLimitScope) (value : Text)
    → now ≤ later
    → later < (attempt_of d now s value).expires_at
    → ((attempt_of d now s value).bucket_started_at ≤ now)
      × (now < (attempt_of d now s value).expires_at)
      × (attempt_of d later s value ≡ attempt_of d now s value)
unfolding attempt_of
attempt_of-window d now later s value h k =
    let w : ℕ = window_seconds s * 1000 in
    let b = window_bounds now w (window_positive s) in
    let c = window_bounds later w (window_positive s) in
    (
      b.0,
      b.1,
      ap (at_bucket d s value)
          (window_unique w (later / w) (now / w) later c.0 c.1 (omega (arith, b.0, h)) k),
    )
