-- ===== src/Cuda/DeviceState/Devices.antt =====
-- The map of devices after `initializeAllDevices`.
use native.Mathlib.Decide.{ℕ_discrete}
use ohmy_miner_etc.Common.{
  ℕ, zero, suc, ◌+◌, ◌≡◌, ◌≢◌, refl, subst, ap, ◌∙◌, [], ◌∷◌, Bool, true, false, ◌&&◌, Option, some,
  arith, if◌then◌else◌, ltb, leb, ◌==◌, Bool-cases, inl, inr,
}
use ohmy_miner_etc.Cuda.DeviceState.{
  DeviceState, Devices, new_state, init_device, find, insert, add_device, add_devices,
  initialize_all_devices,
}
use ohmy_miner_etc.Cuda.DeviceState.Release.{init_device-leaked}
use ohmy_miner_etc.Cuda.DeviceState.{d_dag}

pub find-insert :
    (j i : ℕ) (s : DeviceState) (devices : Devices)
    → find j (insert i s devices) ≡ (if i == j then some s else find j devices)
unfolding find insert
find-insert j i s [] = refl
find-insert j i s ((k, t) ∷ devices) = ground (arith, find-insert j i s devices)

-- How many of `left` devices from device `i` on let all sixteen calls succeed.
pub ready_count : (ℕ → ℕ) → ℕ → ℕ → ℕ
ready_count budgets zero i = 0
ready_count budgets (suc left) i =
    let rest = ready_count budgets left (i + 1) in if leb 16 (budgets i) then rest + 1 else rest

module _ (budgets : ℕ → ℕ) (dag_size : ℕ) where
  abbrev made : ℕ → DeviceState
  made j = (init_device (budgets j) (new_state j dag_size)).0

  add_device-ready :
      (i : ℕ) (devices : Devices)
      → leb 16 (budgets i) ≡ true
      → add_device (budgets i) i dag_size devices ≡ (insert i (made i) devices, true)
  unfolding add_device
  add_device-ready i devices e =
      let t = (init_device-leaked (budgets i) i dag_size d_dag).0 ∙ e in rw t refl

  add_device-failed :
      (i : ℕ) (devices : Devices)
      → leb 16 (budgets i) ≡ false
      → add_device (budgets i) i dag_size devices ≡ (devices, false)
  unfolding add_device
  add_device-failed i devices e =
      let t = (init_device-leaked (budgets i) i dag_size d_dag).0 ∙ e in rw t refl

  -- What the loop finds for a device.
  abbrev expected : ℕ → ℕ → Devices → ℕ → Option DeviceState
  expected left i devices j =
      if leb i j && ltb j (i + left) && leb 16 (budgets j) then some (made j) else find j devices

  abbrev IsAdded : ℕ → ℕ → Devices → ℕ → ℕ → Devices × ℕ → Type 0
  IsAdded left i devices count j r =
      (find j r.0 ≡ expected left i devices j) × (r.1 ≡ count + ready_count budgets left i)

  -- The range of the loop loses its first device.
  first-range :
      (left i j : ℕ)
      → i ≢ j
      → (leb (i + 1) j && ltb j (i + 1 + left)) ≡ (leb i j && ltb j (i + suc left))
  first-range left i j n = ground arith

  expected-first :
      (left i j : ℕ) (devices : Devices)
      → leb 16 (budgets i) ≡ true
      → expected left (i + 1) (insert i (made i) devices) j ≡ expected (suc left) i devices j
  expected-first left i j devices e = elim (ℕ_discrete i j) [
    | yes q ↦
        subst
          (λ (k : ℕ).
            expected left (i + 1) (insert i (made i) devices) k ≡ expected (suc left) i devices k)
          q (self (find-insert i i (made i) devices))
    | no n ↦
        let apart : (i == j) ≡ false = ground arith in
        rw (find-insert j i (made i) devices, apart) (ground (arith, n))
  ]
    where
      self :
          find i (insert i (made i) devices) ≡ (if i == i then some (made i) else find i devices)
          → expected left (i + 1) (insert i (made i) devices) i ≡ expected (suc left) i devices i
      self f =
          let same : (i == i) ≡ true = ground arith in
          let past : leb (i + 1) i ≡ false = ground arith in
          let from : leb i i ≡ true = ground arith in
          let within : ltb i (i + suc left) ≡ true = ground arith in
          rw (past, from, within, e, f, same) refl

  expected-skip :
      (left i j : ℕ) (devices : Devices)
      → leb 16 (budgets i) ≡ false
      → expected left (i + 1) devices j ≡ expected (suc left) i devices j
  expected-skip left i j devices e = elim (ℕ_discrete i j) [
    | yes q ↦
        subst (λ (k : ℕ). expected left (i + 1) devices k ≡ expected (suc left) i devices k) q
          (let past : leb (i + 1) i ≡ false = ground arith in
            let from : leb i i ≡ true = ground arith in
            let within : ltb i (i + suc left) ≡ true = ground arith in
            rw (past, from, within, e) refl)
    | no n ↦ ground (arith, n)
  ]

  -- The rest of the loop, after one device.
  abbrev onward : ℕ → ℕ → ℕ → Devices × Bool → Devices × ℕ
  onward left i count r =
      add_devices budgets left (i + 1) dag_size r.0 (if r.1 then count + 1 else count)

  add_devices_step :
      (left i : ℕ) (devices : Devices) (count : ℕ) (r : Devices × Bool)
      → add_device (budgets i) i dag_size devices ≡ r
      → add_devices budgets (suc left) i dag_size devices count ≡ onward left i count r
  unfolding add_devices
  add_devices_step left i devices count r e = ap (onward left i count) e

  add_devices-IsAdded :
      (left i : ℕ) (devices : Devices) (count j : ℕ)
      → IsAdded left i devices count j (add_devices budgets left i dag_size devices count)
  unfolding ready_count
  add_devices-IsAdded zero i devices count j = unfold add_devices in (ground arith, omega arith)
  add_devices-IsAdded (suc left) i devices count j = elim (Bool-cases (leb 16 (budgets i))) [
    | inl e ↦
        let ih = add_devices-IsAdded left (i + 1) (insert i (made i) devices) (count + 1) j in
        rw (add_devices_step left i devices count _ (add_device-ready i devices e))
          (ih.0 ∙ expected-first left i j devices e, ih.1 ∙ rw e (omega arith))
    | inr e ↦
        let ih = add_devices-IsAdded left (i + 1) devices count j in
        rw (add_devices_step left i devices count _ (add_device-failed i devices e))
          (ih.0 ∙ expected-skip left i j devices e, ih.1 ∙ rw e refl)
  ]

-- With any number of devices, of which some fail in any of their calls: initializeAllDevices returns
-- how many have let all sixteen calls succeed, and afterwards the map has for each of these its
-- initialized state, and for every other id what it had before.
pub initialize_all_devices-IsAdded :
    (budgets : ℕ → ℕ) (device_count dag_size : ℕ) (devices : Devices) (j : ℕ)
    → (find j (initialize_all_devices budgets device_count dag_size devices).0 ≡ (
        if ltb j device_count && leb 16 (budgets j)
        then some (init_device (budgets j) (new_state j dag_size)).0
        else find j devices))
      × ((initialize_all_devices budgets device_count dag_size devices).1
          ≡ ready_count budgets device_count 0)
unfolding initialize_all_devices
initialize_all_devices-IsAdded budgets device_count dag_size devices j =
    let t = add_devices-IsAdded budgets dag_size device_count 0 devices 0 j in
    (t.0 ∙ ground arith, omega (arith, t.1))
