-- ===== src/Stratum/Json.antt =====
-- What the client uses of the JSON library, which stands under include/nlohmann.
use ohmy_miner_etc.Common.{ℕ, List, Bool, Option}

-- `none` stands for a `json::exception`: a text that is no JSON, or a value of another type.
-- `contains` is asked before `member` wherever a missing key would not be an exception. `dumps` is
-- whether a text is UTF-8: `dump` throws for any other.
-- `rounded` is the float of a number, rounded and cast to `uint64_t`.
pub record JsonLibrary : Type 1 where
  pub Json : Type 0
  pub parse : List ℕ → Option Json
  pub contains : Json → List ℕ → Bool
  pub member : Json → List ℕ → Option Json
  pub element : Json → ℕ → Option Json
  pub size : Json → ℕ
  pub is_null : Json → Bool
  pub is_boolean : Json → Bool
  pub is_array : Json → Bool
  pub is_integer : Json → Bool
  pub is_float : Json → Bool
  pub get_string : Json → Option (List ℕ)
  pub get_bool : Json → Option Bool
  pub get_uint64 : Json → Option ℕ
  pub rounded : Json → ℕ
  pub dumps : List ℕ → Bool
