-- ===== src/Meta.antt =====
-- The time methods of k8s.io/apimachinery's metav1.Time, which the program calls and does not
-- implement. A time is the number of nanoseconds since Go's zero time; a `*metav1.Time` is an
-- `Option`. The fields other than the operations state what that package documents.
use cluster_api_provider_ocn.Base.{
  ℕ, ◌-◌, ◌%◌, ◌≡◌, refl, Bool, true, false, Option, none, some, ltb, ◌=ℕ◌,
}

pub record TimeApi : Type 0 where
  pub is_zero : Option ℕ → Bool
  pub before : Option ℕ → Option ℕ → Bool
  pub equal : Option ℕ → Option ℕ → Bool
  pub is_zero-none : is_zero none ≡ true
  pub is_zero-some : (t : ℕ) → is_zero (some t) ≡ (t =ℕ 0)
  pub before-some : (t u : ℕ) → before (some t) (some u) ≡ ltb t u
  pub before-none_left : (u : Option ℕ) → before none u ≡ false
  pub before-none_right : (t : Option ℕ) → before t none ≡ false
  pub equal-some : (t u : ℕ) → equal (some t) (some u) ≡ (t =ℕ u)

-- time.Time.Truncate(time.Second)
abbrev pub truncate_second : ℕ → ℕ
truncate_second t = t - t % 1000000000

-- The methods as functions that compute, at which the theorems can be instantiated.
abbrev is_zero' : Option ℕ → Bool
is_zero' none = true
is_zero' (some t) = t =ℕ 0

abbrev before' : Option ℕ → Option ℕ → Bool
before' none u = false
before' (some t) none = false
before' (some t) (some u) = ltb t u

abbrev equal' : Option ℕ → Option ℕ → Bool
equal' none none = true
equal' (some t) (some u) = t =ℕ u
equal' none (some u) = false
equal' (some t) none = false

abbrev before'-none_right : (t : Option ℕ) → before' t none ≡ false
before'-none_right none = refl
before'-none_right (some t) = refl

abbrev pub wall_clock : TimeApi
wall_clock = record {
  is_zero = is_zero';
  before = before';
  equal = equal';
  is_zero-none = refl;
  is_zero-some = λ t. refl;
  before-some = λ t u. refl;
  before-none_left = λ u. refl;
  before-none_right = before'-none_right;
  equal-some = λ t u. refl;
}
