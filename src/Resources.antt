-- ===== src/Resources.antt =====
-- What the driver holds of the kernel: each resource is put on a list when it is acquired, and the
-- first of its kind is taken off when it is given back. The setup functions of
-- driver/dma_control.c, driver/interrupts.c and driver/amc_pci_core.c are written with these.
use amc_pci_dev.Prelude.{ℕ, List, [], ◌∷◌, ◌==◌, if◌then◌else◌, Result, ok, err}
use amc_pci_dev.Prelude.Op.{Op}

pub data Resource : Type 0 where
  amc_state enabled_device regions bus_master msi : Resource
  bar2 prom_data : Resource
  dma_state dma_pages dma_mapping : Resource
  interrupt_state irq_line : Resource
  cdev prom_used_file prom_file : Resource
  chrdev_region device_class pci_driver : Resource

abbrev code : Resource → ℕ
code amc_state = 1
code enabled_device = 2
code regions = 3
code bus_master = 4
code msi = 5
code bar2 = 6
code prom_data = 7
code dma_state = 8
code dma_pages = 9
code dma_mapping = 10
code interrupt_state = 11
code irq_line = 12
code cdev = 13
code prom_used_file = 15
code prom_file = 16
code chrdev_region = 17
code device_class = 18
code pci_driver = 19

abbrev pub Held : Type 0
Held = List Resource

-- A call that returns a resource or an error.
abbrev pub acquire : {A : Type 0} → Resource → Result A → Op Held A
acquire r (ok a) held = (ok a, r ∷ held)
acquire r (err e) held = (err e, held)

abbrev pub release : Resource → Held → Held
release r [] = []
release r (x ∷ held) = if code x == code r then held else x ∷ release r held
