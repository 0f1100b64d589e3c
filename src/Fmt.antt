-- ===== src/Fmt.antt =====
-- What the program takes from Go's fmt package: the decimal form of a number, and Sprintf of a
-- format with no arguments, which is the format itself unless it holds a percent sign.
use cluster_api_provider_ocn.Base.{ℕ, String, ◌≡◌, refl, none}
use text.Mathlib.Text.{find?}

pub record FmtApi : Type 0 where
  pub itoa : ℕ → String
  pub sprintf : String → String
  pub sprintf_plain : (s : String) → find? s "%" ≡ none → sprintf s ≡ s

-- Functions that compute, at which the theorems can be instantiated.
abbrev itoa' : ℕ → String
itoa' n = elim n [ Prim.Native.Nat.ℕ.zero ↦ "0" | Prim.Native.Nat.ℕ.suc m ↦ "many" ]

abbrev pub plain_fmt : FmtApi
plain_fmt = record { itoa = itoa'; sprintf = λ s. s; sprintf_plain = λ s h. refl }
