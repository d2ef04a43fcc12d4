-- ===== src/Detection/Config/Tests.antt =====
-- Concrete configuration files.
use cs621_network_programmin.Common.{◌≡◌, refl, some, List, [], ◌∷◌, arith, All}
use cs621_network_programmin.Common.Integers.{pos, negsuc}
use cs621_network_programmin.Common.Decimal.{codes, digits}
use cs621_network_programmin.Detection.Config.{load, unset}
use cs621_network_programmin.Detection.Config.Text.{Plain}
use cs621_network_programmin.Detection.Config.Written.{
  Setting, packet_size, outer_data_rate, threshold, other, Blanks, written, apply_all, AreBlank,
  IsWritable, load-written,
}

-- config/config.txt as it stands.
config_file :
    load
      (codes
        "packetSize = 1100\nmaxPacketCount = 6000\nouterDataRate = 8Mbps\nthreshold = 100\ncompressionLinkCapacity = 5\nuseCompression = 1\n")
      unset
    ≡ some (record {
      packet_size = some 1100;
      max_packet_count = some 6000;
      outer_data_rate = codes "8Mbps";
      threshold = some (pos 100);
    })
unfolding load digits
config_file = refl

abbrev around : Blanks
around = record { lead = b'\t' ∷ []; before = b' ' ∷ []; after = b' ' ∷ []; trail = b'\r' ∷ [] }

abbrev settings : List (Setting × Blanks)
settings =
    (packet_size (pos 1100), around)
    ∷ (other (codes "useCompression") (codes "1"), around)
    ∷ (outer_data_rate (codes "8Mbps"), around)
    ∷ (threshold (negsuc 4), around)
    ∷ []

around-AreBlank : AreBlank around
around-AreBlank = (((refl, refl), tt), ((refl, refl), tt), ((refl, refl), tt), ((refl, refl), tt))

rate-Plain : Plain (codes "8Mbps")
rate-Plain = ground arith

settings-IsWritable : All IsWritable settings
settings-IsWritable = (
  (omega arith, around-AreBlank),
  (
    (ground arith, around-AreBlank),
    ((rate-Plain, around-AreBlank), ((omega arith, around-AreBlank), tt)),
  ),
)

load-written_example : load (written settings) unset ≡ some (apply_all settings unset)
load-written_example = load-written settings unset settings-IsWritable
