-- ===== src/Bootstrap/Tokens.antt =====
-- token.go, and the two operations of kubeadmconfig_controller.go that keep a token fresh. Times are
-- nanoseconds; the expiration of a token is written to the second, so parts of a second are cut off.
use cluster_api_provider_ocn.Base.{
  ℕ, ◌+◌, ◌*◌, ◌/◌, ◌≤◌, ◌<◌, ◌≡◌, Bool, true, false, not, Option, none, some, ltb, if◌then◌else◌,
  arith, ◌⊎◌, inl, inr, Bool-cases,
}

abbrev pub second : ℕ
second = 1000000000

-- What time.Parse reads of a time that Format has written at RFC3339.
unfoldable pub written : ℕ → ℕ
written t = t / second * second

-- What getToken finds: the secret with its expiration, if that can be read; no secret; an error.
pub data Token : Type 0 where
  token_secret : Option ℕ → Token
  token_missing token_error : Token

-- The new token, the delay after which to come again, or an error.
pub data Freshened : Type 0 where
  kept_until : Token → ℕ → Freshened
  rotated freshen_failed : Freshened

-- refreshToken, if the update of the secret succeeds.
unfoldable pub refresh_token : ℕ → ℕ → Bool → Token → Option Token
refresh_token now ttl updated (token_secret e) =
    if updated then some (token_secret (some (written (now + ttl)))) else none
refresh_token now ttl updated token_missing = none
refresh_token now ttl updated token_error = none

-- shouldRotate: none where it returns an error.
unfoldable pub should_rotate : ℕ → ℕ → Token → Option Bool
should_rotate now ttl (token_secret none) = none
should_rotate now ttl (token_secret (some e)) = some (ltb e (now + ttl / 2))
should_rotate now ttl token_missing = some true
should_rotate now ttl token_error = none

unfoldable pub after_refresh : ℕ → Option Token → Freshened
after_refresh ttl none = freshen_failed
after_refresh ttl (some t) = kept_until t (ttl / 2)

unfoldable pub refresh_bootstrap_token : ℕ → ℕ → Bool → Bool → Token → Freshened
refresh_bootstrap_token now ttl remote_client updated t =
    if not remote_client
    then freshen_failed
    else after_refresh ttl (refresh_token now ttl updated t)

unfoldable pub after_check : ℕ → Token → Option Bool → Freshened
after_check ttl t none = freshen_failed
after_check ttl t (some true) = rotated
after_check ttl t (some false) = kept_until t (ttl / 3)

-- Where it rotates, a token is created and the worker's data is made anew.
unfoldable pub rotate_machine_pool_bootstrap_token : ℕ → ℕ → Bool → Token → Freshened
rotate_machine_pool_bootstrap_token now ttl remote_client t =
    if not remote_client then freshen_failed else after_check ttl t (should_rotate now ttl t)

-- The token has not expired.
abbrev pub Lives : Token → ℕ → Type 0
Lives t when = (e : ℕ) × (t ≡ token_secret (some e)) × (when < e)

after_refresh-Lives :
    (now ttl delay : ℕ) (updated : Bool) (t u : Token)
    → 2 * second < ttl
    → after_refresh ttl (refresh_token now ttl updated t) ≡ kept_until u delay
    → Lives u (now + delay)
unfolding after_refresh refresh_token written
after_refresh-Lives now ttl delay true (token_secret e) u l h =
    let d : delay ≡ ttl / 2 = cc h in
    let k : u ≡ token_secret (some ((now + ttl) / second * second)) = cc h in
    ((now + ttl) / second * second, k, omega (arith, d, l))
after_refresh-Lives now ttl delay false (token_secret e) u l h = cc h
after_refresh-Lives now ttl delay updated token_missing u l h = cc h
after_refresh-Lives now ttl delay updated token_error u l h = cc h

after_check-Lives :
    (now ttl delay : ℕ) (t u : Token)
    → 6 ≤ ttl
    → after_check ttl t (should_rotate now ttl t) ≡ kept_until u delay
    → Lives u (now + delay)
unfolding after_check should_rotate
after_check-Lives now ttl delay (token_secret none) u l h = cc h
after_check-Lives now ttl delay token_missing u l h = cc h
after_check-Lives now ttl delay token_error u l h = cc h
after_check-Lives now ttl delay (token_secret (some e)) u l h =
    elim (Bool-cases (ltb e (now + ttl / 2))) [
      | inl q ↦ cc (rw (q, after_check) at h)
      | inr q ↦
          let k : kept_until (token_secret (some e)) (ttl / 3) ≡ kept_until u delay =
            rw (q, after_check) at h in
          let d : delay ≡ ttl / 3 = cc k in
          let x : u ≡ token_secret (some e) = cc k in
          let late : now + ttl / 2 ≤ e = ground (arith, q) in (e, x, omega (arith, d, l, late))
    ]

-- With a time to live of more than two seconds, a token that is refreshed, or that is checked and not
-- rotated, has not expired when the delay after which it is looked at again has passed.
pub kept_until-Lives :
    (now ttl delay : ℕ) (remote_client updated : Bool) (t u : Token)
    → 2 * second < ttl
    → (refresh_bootstrap_token now ttl remote_client updated t ≡ kept_until u delay)
      ⊎ (rotate_machine_pool_bootstrap_token now ttl remote_client t ≡ kept_until u delay)
    → Lives u (now + delay)
unfolding refresh_bootstrap_token rotate_machine_pool_bootstrap_token
kept_until-Lives now ttl delay true updated t u l (inl h) =
    after_refresh-Lives now ttl delay updated t u l h
kept_until-Lives now ttl delay true updated t u l (inr h) =
    after_check-Lives now ttl delay t u (omega (arith, l)) h
kept_until-Lives now ttl delay false updated t u l (inl h) = cc h
kept_until-Lives now ttl delay false updated t u l (inr h) = cc h
