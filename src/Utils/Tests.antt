-- ===== src/Utils/Tests.antt =====
-- Checks of the checksum on small buffers.
use amc_pci_dev.Prelude.{
  ℕ, ◌+◌, ◌-◌, ◌%◌, ◌≤◌, ◌<◌, ◌≡◌, ◌≢◌, ◌↔◌, refl, arith, List, [], ◌∷◌, get_or, get_or-lt, update,
}
use amc_pci_dev.Utils.{calc_checksum16}
use amc_pci_dev.Utils.Total.{IsBytes, total}
use amc_pci_dev.Utils.Checksum.{calc_checksum16_lem, calc_checksum16-update}

abbrev bytes : List ℕ
bytes = 0xff ∷ 0xff ∷ 0x01 ∷ 0x00 ∷ 0x7f ∷ []

abbrev buffer : ℕ → ℕ
buffer j = get_or bytes j 0

buffer-IsBytes : IsBytes buffer
buffer-IsBytes = get_or-lt bytes 256 (omega arith) (omega arith)

-- The last odd byte counts as a high byte, and the carry is folded in.
calc_checksum16_odd : calc_checksum16 buffer 5 ≡ 65535 - 0x7f01
unfolding calc_checksum16
calc_checksum16_odd = refl

calc_checksum16_lem_example :
    (calc_checksum16 buffer 5 ≤ 65535)
    × ((calc_checksum16 buffer 5 + total buffer 5) % 65535 ≡ 0)
    × ((calc_checksum16 buffer 5 ≡ 0) ↔ ((0 < total buffer 5) × (total buffer 5 % 65535 ≡ 0)))
calc_checksum16_lem_example = calc_checksum16_lem buffer 5 buffer-IsBytes (omega arith)

calc_checksum16-update_example : calc_checksum16 (update buffer 1 0xfe) 2 ≢ 0
calc_checksum16-update_example =
    calc_checksum16-update buffer 2 buffer-IsBytes (omega arith) (unfold calc_checksum16 in refl) 1
      0xfe (omega arith) (omega arith) (omega arith)
