-- ===== src/Wire/Slid.antt =====
-- The range of SLIDs of SteamLink.h, and the reserved addresses of SteamLinkGeneric.h.
use steamlink_arduino.Prelude.{ℕ}

abbrev pub lowest : ℕ
lowest = 0x100

abbrev pub highest : ℕ
highest = 0x10ff

-- SL_DEFAULT_STORE_ADDR and SL_DEFAULT_TEST_ADDR of SteamLinkGeneric.h
abbrev pub store_addr : ℕ
store_addr = 1

abbrev pub test_addr : ℕ
test_addr = 0xFFFFFFFF
