-- ===== src/Wire/Op.antt =====
-- The op codes of SteamLink.h: even ones are control packets, odd ones data packets.
use steamlink_arduino.Prelude.{ℕ}

abbrev pub dn : ℕ
dn = 0x30

abbrev pub bn : ℕ
bn = 0x32

abbrev pub gs : ℕ
gs = 0x34

abbrev pub td : ℕ
td = 0x36

abbrev pub sc : ℕ
sc = 0x38

abbrev pub bc : ℕ
bc = 0x3A

abbrev pub br : ℕ
br = 0x3C

abbrev pub an : ℕ
an = 0x3E

-- the op codes of data packets

abbrev pub ds : ℕ
ds = 0x31

abbrev pub bs : ℕ
bs = 0x33

abbrev pub on : ℕ
on = 0x35

abbrev pub acks : ℕ
acks = 0x37

abbrev pub ms : ℕ
ms = 0x39

abbrev pub tr : ℕ
tr = 0x3B

abbrev pub ss : ℕ
ss = 0x3D

abbrev pub off : ℕ
off = 0x3F

abbrev pub lowest : ℕ
lowest = 0x30

abbrev pub highest : ℕ
highest = 0x3F
