-- ===== src/Cuda/DeviceState/Tests.antt =====
-- Devices of src/cuda/modules/device_initializer.cu.
use ohmy_miner_etc.Common.{ℕ, ◌≡◌, ◌&&◌, [], some, if◌then◌else◌, ltb, leb, ◌==◌}
use ohmy_miner_etc.Cuda.DeviceState.{
  d_solutions, new_state, cleanup, init_device, find, initialize_all_devices,
}
use ohmy_miner_etc.Cuda.DeviceState.Release.{leaked, init_device-leaked}
use ohmy_miner_etc.Cuda.DeviceState.Devices.{ready_count, initialize_all_devices-IsAdded}

-- The second of three devices fails at its tenth call.
abbrev one_fails : ℕ → ℕ
one_fails i = if i == 1 then 9 else 16

init_device-leaked_example :
    ((init_device 9 (new_state 1 4096)).1 ≡ leb 16 9)
    × ((init_device 9 (new_state 1 4096)).0.initialized ≡ leb 16 9)
    × ((init_device 9 (new_state 1 4096)).0.live d_solutions
        ≡ (if leb 16 9 then 1 else leaked 9 d_solutions))
    × ((cleanup (init_device 9 (new_state 1 4096)).0).live d_solutions ≡ leaked 9 d_solutions)
init_device-leaked_example = init_device-leaked 9 1 4096 d_solutions

initialize_all_devices-IsAdded_example :
    (find 2 (initialize_all_devices one_fails 3 4096 []).0 ≡ (
      if ltb 2 3 && leb 16 (one_fails 2)
      then some (init_device (one_fails 2) (new_state 2 4096)).0
      else find 2 []))
    × ((initialize_all_devices one_fails 3 4096 []).1 ≡ ready_count one_fails 3 0)
initialize_all_devices-IsAdded_example = initialize_all_devices-IsAdded one_fails 3 4096 [] 2
