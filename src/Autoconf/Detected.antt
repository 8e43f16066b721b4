-- ===== src/Autoconf/Detected.antt =====
-- What Detect of internal/autoconf/detect_linux.go promises.
use paqet.Prelude.Text.{Text}
use paqet.Autoconf.{System, Info}
use paqet.Autoconf.Sound.{OnInterface, InRoutes, InArp}

abbrev pub IsDetected : System → Info → Type 0
IsDetected s i =
    OnInterface s i.interface i.ipv4
    × InRoutes s i.ipv4_gateway
    × InArp s i.interface i.ipv4_gateway i.ipv4_router_mac
