-- ===== src/Pci/Terminates.antt =====
-- The buses, slots and functions that the search of
-- kernel/source/arch/x86_64/drivers/pci.cpp goes through.
use sigma.Pci.{◌>>=◌, ◌>>◌}
use sigma.Pci.Grows.{Ends}
