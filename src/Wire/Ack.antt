-- ===== src/Wire/Ack.antt =====
-- The acknowledgement codes of SteamLink.h that the nodes send.
use steamlink_arduino.Prelude.{ℕ}

abbrev pub success : ℕ
success = 0

abbrev pub unexpected : ℕ
unexpected = 2

abbrev pub version_err : ℕ
version_err = 3

abbrev pub size_err : ℕ
size_err = 4
