-- ===== src/Miner/Tests.antt =====
-- Command lines of src/miner_main.cpp.
use ohmy_miner_etc.Common.{◌≡◌, refl, [], ◌∷◌, true, arith, codes, list_eq}
use ohmy_miner_etc.Miner.{
  default_config, accepted, refused, natural, parse_args, parse_loop, take_option, take_value,
  with_value, validate, name_of,
}
use ohmy_miner_etc.Miner.Arguments.{arguments, parse_args-arguments}
use ohmy_miner_etc.Stratum.Address.Reading.{decimal_value}

wallet_is_required : parse_args (codes "--pool" ∷ codes "p:1" ∷ []) default_config ≡ refused
unfolding parse_args parse_loop take_option take_value with_value validate name_of list_eq
    default_config
wallet_is_required = refl

parse_args-arguments_example :
    (parse_args
        (arguments (codes "pool:4444") (codes "0x12") (codes "rig1") (codes "10") [])
        default_config
      ≡ accepted (record default_config {
        pool_url = codes "pool:4444";
        wallet_address = codes "0x12";
        worker_name = codes "rig1";
        device_id = natural (decimal_value (codes "10"));
      }))
    × (parse_args
          (arguments
            (codes "pool:4444")
            (codes "0x12")
            (codes "rig1")
            (codes "10")
            (codes "--verbose" ∷ []))
          default_config
        ≡ accepted (record default_config {
          pool_url = codes "pool:4444";
          wallet_address = codes "0x12";
          worker_name = codes "rig1";
          device_id = natural (decimal_value (codes "10"));
          verbose = true;
        }))
parse_args-arguments_example =
    parse_args-arguments (codes "pool:4444") (codes "0x12") (codes "rig1") (codes "10")
      default_config (ground arith) (ground arith) (omega arith) (ground arith) (omega arith)
