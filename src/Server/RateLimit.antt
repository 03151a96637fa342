-- ===== src/Server/RateLimit.antt =====
-- internal/server/ratelimit.go: the fixed-window limiter. A time or a duration is a number of
-- nanoseconds, read from the clock by the caller; the map of windows is a function.
use cribbager.Common.{
  ℕ, zero, suc, ◌+◌, ◌-◌, ◌≤◌, ◌<◌, ◌≡◌, refl, ap, ◌∙◌, Bool, true, false, List, [], ◌∷◌, Option,
  none, some, leb, if◌then◌else◌, arith, Option-cases, inl, inr, length,
}

pub record HitWindow : Type 0 where
  pub start : ℕ
  pub count : ℕ

pub record RateLimiter {ℓ} (K : Type ℓ) : Type ℓ where
  pub max_hits : ℕ
  pub window : ℕ
  pub hits : K → Option HitWindow

unfoldable pub new_rate_limiter {ℓ} : {K : Type ℓ} → ℕ → ℕ → RateLimiter K
new_rate_limiter n window = record { max_hits = n; window = window; hits = λ k. none }

-- `t.Sub(w.start) >= r.window`
abbrev pub elapsed : ℕ → ℕ → HitWindow → Bool
elapsed window t w = leb (w.start + window) t

-- A string's equality test is the parameter `same`.
module _ {ℓ} {K : Type ℓ} (same : K → K → Bool) where
  abbrev store : RateLimiter K → K → HitWindow → RateLimiter K
  store r key w = record r { hits = λ k. if same k key then some w else r.hits k }

  -- The window that the event leaves, and the answer, from the window that the key has.
  unfoldable pub hit : ℕ → ℕ → ℕ → Option HitWindow → HitWindow × Bool
  hit n window t none = (record { start = t; count = 1 }, true)
  hit n window t (some w) =
      if elapsed window t w
      then (record { start = t; count = 1 }, true)
      else (record w { count = w.count + 1 }, leb (w.count + 1) n)

  unfoldable pub allow : RateLimiter K → ℕ → K → RateLimiter K × Bool
  unfolding hit
  allow r t key =
      let (w, allowed) = hit r.max_hits r.window t (r.hits key) in (store r key w, allowed)

  unfoldable pub kept : ℕ → ℕ → Option HitWindow → Option HitWindow
  kept window t none = none
  kept window t (some w) = if elapsed window t w then none else some w

  unfoldable pub sweep : RateLimiter K → ℕ → RateLimiter K
  unfolding kept
  sweep r t = record r { hits = λ k. kept r.window t (r.hits k) }

  -- The answers to a key's events at the given times.
  unfoldable pub allow_all : RateLimiter K → K → List ℕ → List Bool
  allow_all r key [] = []
  allow_all r key (t ∷ ts) = let (r', b) = allow r t key in b ∷ allow_all r' key ts

  hit-kept :
      (n window t t' : ℕ) (o : Option HitWindow)
      → t ≤ t'
      → hit n window t' (kept window t o) ≡ hit n window t' o
  unfolding hit kept
  hit-kept n window t t' none le = refl
  hit-kept n window t t' (some w) le = ground arith

  -- Sweeping at one time changes no answer at that time or later, for any key.
  pub allow-sweep :
      (r : RateLimiter K) (t t' : ℕ) (key : K)
      → t ≤ t'
      → (allow (sweep r t) t' key).1 ≡ (allow r t' key).1
  unfolding allow sweep
  allow-sweep r t t' key le = rw (hit-kept r.max_hits r.window t t' (r.hits key) le)

-- Answers to `n` events of which the first `k` are allowed.
abbrev pub first_allowed : ℕ → ℕ → List Bool
first_allowed k zero = []
first_allowed zero (suc n) = false ∷ first_allowed zero n
first_allowed (suc k) (suc n) = true ∷ first_allowed k n

-- All times lie from `lo` up to, and without, `hi`.
abbrev pub Within : ℕ → ℕ → List ℕ → Type 0
Within lo hi [] = Unit
Within lo hi (t ∷ ts) = (lo ≤ t) × (t < hi) × Within lo hi ts

module _ {ℓ} {K : Type ℓ} (same : K → K → Bool) (key : K) (same_refl : same key key ≡ true) where
  -- Within a window that has counted `c` events, the next `max - c` pass and no more.
  counted :
      (r : RateLimiter K) (s c k : ℕ) (ts : List ℕ)
      → r.hits key ≡ some (record { start = s; count = c })
      → Within s (s + r.window) ts
      → r.max_hits - c ≡ k
      → allow_all same r key ts ≡ first_allowed k (length ts)
  unfolding allow_all allow hit
  counted r s c k [] e w left = refl
  counted r s c k (t ∷ ts) e (ge, lt, w) left =
      let next : RateLimiter K = record r {
        hits = λ x. if same x key then some (record { start = s; count = c + 1 }) else r.hits x;
      } in
      let stored : next.hits key ≡ some (record { start = s; count = c + 1 }) = rw same_refl refl in
      let inside : elapsed r.window t (record { start = s; count = c }) ≡ false = ground arith in
      rw (e, inside)
        (answered k left (counted next s (c + 1) (r.max_hits - (c + 1)) ts stored w refl))
    where
      answered :
          (k : ℕ) {bs : List Bool}
          → r.max_hits - c ≡ k
          → bs ≡ first_allowed (r.max_hits - (c + 1)) (length ts)
          → leb (c + 1) r.max_hits ∷ bs ≡ first_allowed k (suc (length ts))
      answered zero h rest =
          let none_left : r.max_hits - (c + 1) ≡ 0 = omega (arith, h) in
          let full : leb (c + 1) r.max_hits ≡ false = ground (arith, h) in
          rw full (ap (λ l. false ∷ l) (rest ∙ ap (λ n. first_allowed n (length ts)) none_left))
      answered (suc k) h rest =
          let one_less : r.max_hits - (c + 1) ≡ k = omega (arith, h) in
          let fits : leb (c + 1) r.max_hits ≡ true = ground (arith, h) in
          rw fits (ap (λ l. true ∷ l) (rest ∙ ap (λ n. first_allowed n (length ts)) one_less))

  -- A limiter that allows at least one event in a window: of a run of events of one key that all fall
  -- into the window that the first of them opens, exactly the first `max` are allowed and the others are
  -- not, whatever the limiter holds for other keys.
  pub allow-window :
      (r : RateLimiter K) (s : ℕ) (ts : List ℕ)
      → 1 ≤ r.max_hits
      → kept same r.window s (r.hits key) ≡ none
      → Within s (s + r.window) ts
      → allow_all same r key (s ∷ ts) ≡ first_allowed r.max_hits (suc (length ts))
  unfolding allow_all allow hit kept
  allow-window r s ts pos fresh w =
      let next : RateLimiter K = record r {
        hits = λ k. if same k key then some (record { start = s; count = 1 }) else r.hits k;
      } in
      let stored : next.hits key ≡ some (record { start = s; count = 1 }) = rw same_refl refl in
      let first : suc (r.max_hits - 1) ≡ r.max_hits = omega (arith, pos) in
      let rest : true ∷ allow_all same next key ts ≡ first_allowed r.max_hits (suc (length ts)) =
        ap (λ l. true ∷ l) (counted next s 1 (r.max_hits - 1) ts stored w refl)
        ∙ ap (λ n. first_allowed n (suc (length ts))) first in
      elim (Option-cases (r.hits key)) [
        | inl e ↦ rw e rest
        | inr (old, e) ↦
            let past : elapsed r.window s old ≡ true = ground (arith, fresh, e) in rw (e, past) rest
      ]
