-- ===== src/Size/Examples.antt =====
-- The theorems on enova/common/utils.py at concrete sizes.
use enova.Prelude.{◌≡◌, true}
use enova.Prelude.Int.{pos}
use enova.Size.{DiskSize, add, sub}
use enova.Size.Units.{sub-add}

abbrev gigabyte : DiskSize
gigabyte = record { bytes = pos 1073741824; is_binary = true }

abbrev kilobyte : DiskSize
kilobyte = record { bytes = pos 1024; is_binary = true }

sub-add_example : sub (add kilobyte gigabyte) gigabyte ≡ kilobyte
sub-add_example = sub-add kilobyte gigabyte
