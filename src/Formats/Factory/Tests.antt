-- ===== src/Formats/Factory/Tests.antt =====
-- The choice of the format at a concrete file.
use mem_nix_fs.Base.{◌≢◌, ◌≡◌, refl, ok, stuck}
use mem_nix_fs.Io.Mmap.{content}
use mem_nix_fs.Formats.Avml.Tests.{avml_code, dump, dump_source, dump-Serves, loaded, repeater}
use mem_nix_fs.Formats.Factory.{
  avml, open_avml_physical, open_as, open_physical_layer, open_physical_layer-ne-stuck,
}

-- An AVML dump of a chunk with two frames, behind which the file ends.
dump_chosen : open_physical_layer 1000 repeater dump_source ≡ ok (avml loaded)
unfolding avml_code open_avml_physical open_as open_physical_layer
dump_chosen = refl

open_physical_layer-ne-stuck_example : open_physical_layer 1000 repeater dump_source ≢ stuck
open_physical_layer-ne-stuck_example =
    open_physical_layer-ne-stuck 1000 dump_source (content dump) dump-Serves repeater
