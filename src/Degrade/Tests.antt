-- ===== src/Degrade/Tests.antt =====
-- Sections of which one failed.
use node_debug_dashboard.Prelude.{
  ℕ, ◌≡◌, ◌⊎◌, refl, Option, none, some, List, [], ◌∷◌, Text, lit, text_eq, lookup, put, Dict,
  str_eq, concat_map,
}
use node_debug_dashboard.Degrade.{
  Outcome, returned, raised, cancelled, collect, gather_sections, get_hardware, body, http_error,
  interrupted, Section, model, listed, HardwareResults, hardware_sections, filled,
}
use node_debug_dashboard.Degrade.Sections.{
  result_at, name_if_raised, NoneCancelled, IsCancelled, page, not_collected,
  gather_sections-isolates, get_hardware-degrades,
}
use node_debug_dashboard.Dmesg.{join}

program : Unit {0}
unfolding collect gather_sections get_hardware lookup put join lit text_eq result_at
    hardware_sections filled
program = tt

abbrev outcomes : List (Text × Outcome ℕ)
outcomes =
    (lit "cpu", returned 1)
    ∷ (lit "memory", raised)
    ∷ (lit "pci", raised)
    ∷ (lit "usb", returned 4)
    ∷ []

-- The collectors of the PCI and the USB devices raise.
abbrev hardware : HardwareResults ℕ
hardware = record {
  cpu = returned (model 1);
  memory = returned (model 2);
  pci_devices = raised;
  usb_devices = raised;
  nics = returned (listed (5 ∷ 6 ∷ []));
  sensors = returned (listed []);
  gpus = returned (listed []);
}

abbrev no_memory : HardwareResults ℕ
no_memory = record hardware { memory = raised }

unavailable :
    (get_hardware no_memory
      ≡ http_error 503 (lit "Could not collect: memory, pci_devices, usb_devices"))
    × (get_hardware (record hardware { gpus = cancelled }) ≡ interrupted)
    × (gather_sections ((lit "cpu", cancelled) ∷ outcomes) ≡ none)
unfolding program
unavailable = (refl, refl, refl)

gather_sections-isolates_example :
    (NoneCancelled outcomes
      → (out : Dict Text (Option ℕ)) × (gather_sections outcomes
          ≡ some (out, concat_map name_if_raised outcomes))
        × ((name : Text) → lookup name out ≡ result_at name outcomes none))
    × (IsCancelled outcomes → gather_sections outcomes ≡ none)
gather_sections-isolates_example = gather_sections-isolates outcomes

get_hardware-degrades_example :
    ((c m : Section ℕ)
      → hardware.cpu ≡ returned c
      → hardware.memory ≡ returned m
      → get_hardware hardware ≡ body (page c m hardware))
    × (((hardware.cpu ≡ raised) ⊎ (hardware.memory ≡ raised))
        → get_hardware hardware ≡ not_collected hardware)
unfolding program
get_hardware-degrades_example = get_hardware-degrades hardware ran
  where
    ran : NoneCancelled (hardware_sections hardware)
    ran e = e
