-- ===== src/Miner/Arguments.antt =====
-- Command lines that say what a configuration holds.
use ohmy_miner_etc.Common.{
  ℕ, ◌≤◌, ◌≡◌, ◌≢◌, refl, ap, ◌∙◌, inl, inr, List, [], ◌∷◌, true, false, none, some, arith, list_eq,
  eq-of-list_eq, codes, Bool-cases, ◌==◌,
}
use ohmy_miner_etc.Stratum.Address.Reading.{IsDigits, decimal_value, magnitude-lem, is_space-digit}
use ohmy_miner_etc.Miner.{
  natural, Config, Parsed, accepted, signed_integer, stoi, name_of, validate, device_option,
  with_value, take_option, take_value, parse_loop, parse_args,
}

-- A text that is not empty.
is_text : (text : List ℕ) → text ≢ [] → list_eq text [] ≡ false
is_text text ne = elim (Bool-cases (list_eq text [])) [
  | inl e ↦ absurd (ne (eq-of-list_eq text [] e))
  | inr e ↦ e
]

stoi-digits :
    (digits : List ℕ)
    → IsDigits digits
    → digits ≢ []
    → decimal_value digits ≤ 2147483647
    → stoi digits ≡ some (natural (decimal_value digits))
unfolding stoi signed_integer
stoi-digits [] h ne k = absurd (ne refl)
stoi-digits (c ∷ digits) h ne k =
    let minus : (c == b'-') ≡ false = ground (arith, h.0) in
    let plus : (c == b'+') ≡ false = ground (arith, h.0) in
    rw (is_space-digit c digits h.0)
      (rw minus (rw plus (rw (magnitude-lem 2147483647 (c ∷ digits) h ne k))))

-- The options that give a configuration, in the order of the usage message.
pub arguments : List ℕ → List ℕ → List ℕ → List ℕ → List (List ℕ) → List (List ℕ)
arguments url address name digits rest =
    codes "--pool"
    ∷ url
    ∷ codes "--wallet"
    ∷ address
    ∷ codes "--worker"
    ∷ name
    ∷ codes "--device"
    ∷ digits
    ∷ rest

with_names : List ℕ → List ℕ → List ℕ → Config → Config
with_names url address name config = record config {
  pool_url = url;
  wallet_address = address;
  worker_name = name;
}

rest_loop : List (List ℕ) → Config → Parsed
rest_loop rest c = parse_loop rest none c

checked :
    (url address : List ℕ) (config : Config)
    → list_eq config.pool_url [] ≡ false
    → list_eq config.wallet_address [] ≡ false
    → validate config ≡ accepted config
unfolding validate
checked url address config u a = rw u (rw a)

device_last :
    (url address name digits : List ℕ) (config : Config)
    → stoi digits ≡ some (natural (decimal_value digits))
    → list_eq url [] ≡ false
    → list_eq address [] ≡ false
    → parse_args (arguments url address name digits []) config
      ≡ accepted (record config {
        pool_url = url;
        wallet_address = address;
        worker_name = name;
        device_id = natural (decimal_value digits);
      })
unfolding parse_args arguments parse_loop name_of list_eq take_option take_value with_value validate
    device_option with_names rest_loop
device_last url address name digits config k u a =
    ap (λ o. take_value (device_option (with_names url address name config) o) (rest_loop [])) k
    ∙ checked url address
        (record (with_names url address name config) { device_id = natural (decimal_value digits) })
        u a

device_verbose :
    (url address name digits : List ℕ) (config : Config)
    → stoi digits ≡ some (natural (decimal_value digits))
    → list_eq url [] ≡ false
    → list_eq address [] ≡ false
    → parse_args (arguments url address name digits (codes "--verbose" ∷ [])) config
      ≡ accepted (record config {
        pool_url = url;
        wallet_address = address;
        worker_name = name;
        device_id = natural (decimal_value digits);
        verbose = true;
      })
unfolding parse_args arguments parse_loop name_of list_eq take_option take_value with_value validate
    device_option with_names rest_loop
device_verbose url address name digits config k u a =
    ap
      (λ o.
        take_value (device_option (with_names url address name config) o)
          (rest_loop (codes "--verbose" ∷ [])))
      k
    ∙ checked url address
        (record (with_names url address name config) {
          device_id = natural (decimal_value digits);
          verbose = true;
        })
        u a

-- Parsing the four options with their values, with or without "--verbose" behind them, when the pool
-- and the wallet are not empty and the device is digits whose value is an int: whatever the
-- configuration held before, it is accepted with exactly these values.
pub parse_args-arguments :
    (url address name digits : List ℕ) (config : Config)
    → url ≢ []
    → address ≢ []
    → IsDigits digits
    → digits ≢ []
    → decimal_value digits ≤ 2147483647
    → (parse_args (arguments url address name digits []) config
        ≡ accepted (record config {
          pool_url = url;
          wallet_address = address;
          worker_name = name;
          device_id = natural (decimal_value digits);
        }))
      × (parse_args (arguments url address name digits (codes "--verbose" ∷ [])) config
          ≡ accepted (record config {
            pool_url = url;
            wallet_address = address;
            worker_name = name;
            device_id = natural (decimal_value digits);
            verbose = true;
          }))
parse_args-arguments url address name digits config u a d ne k = (
  device_last url address name digits config (stoi-digits digits d ne k) (is_text url u)
      (is_text address a),
  device_verbose url address name digits config (stoi-digits digits d ne k) (is_text url u)
      (is_text address a),
)
