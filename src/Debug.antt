-- ===== src/Debug.antt =====
-- The debug output of SteamLink.h and SteamLink.cpp: the printing macros and their levels, `phex`,
-- `print_packet` and `print_op_code`. What is printed is the sequence of the print calls; how the
-- board's `Serial` shows a number is its library's matter. `DEBUG_PACKET_VERBOSE` is 0, as in the
-- source, so the two blocks that it guards are left out.
pub mod Arrays
pub mod Hex
pub mod Packet
use steamlink_arduino.Prelude.{
  ℕ, suc, ◌+◌, ◌*◌, ◌/◌, ◌%◌, Bool, true, false, List, [], ◌∷◌, ◌++◌, Option, none, some, ◌&&◌, ltb,
  ◌==◌, not, if◌then◌else◌, take, drop, length, set,
}
use steamlink_arduino.Prelude.Options.{◌>>=◌}
use steamlink_arduino.Prelude.Text.{codes, digit, c_string}
use steamlink_arduino.Wire.{
  u8, DataHeader, ControlHeader, sizeof_data_header, sizeof_control_header, as_data_header,
  as_control_header, byte_at, is_data,
}
use steamlink_arduino.Wire.Op
use Prim.Native.String.{String}

-- One call of `Serial.print`, or one `<<` to `std::cout`: a text, a number, a `uint8_t`, a number
-- with `HEX`, the manipulator `std::hex`, an end of line.
pub data Item : Type 0 where
  text : List ℕ → Item
  number byte hexadecimal : ℕ → Item
  std_hex newline : Item

abbrev pub level_info : ℕ
level_info = 4

abbrev pub level_warn : ℕ
level_warn = 3

abbrev pub level_err : ℕ
level_err = 2

abbrev pub level_fatal : ℕ
level_fatal = 1

abbrev pub level_none : ℕ
level_none = 0

-- How the program is built: `UNIX`, `DEBUG_ENABLED`, and whether the compiler's `char` is signed.
pub record Build : Type 0 where
  pub unix : Bool
  pub debug_enabled : ℕ
  pub char_signed : Bool

-- `DEBUG_ENABLED` as the source sets it
abbrev pub default_level : ℕ
default_level = level_warn

abbrev pub at_level : Build → ℕ → List Item → List Item
at_level b level items = if ltb b.debug_enabled level then [] else items

-- a number in hexadecimal: `std::hex` stays in force on `std::cout`, which shows a `uint8_t` as a
-- character
abbrev pub in_hex : Build → (ℕ → Item) → ℕ → List Item
in_hex b kind n = if b.unix then std_hex ∷ kind n ∷ [] else hexadecimal n ∷ []

-- INFO, INFONL and INFOHEX
unfoldable pub info : Build → Item → List Item
info b item = at_level b level_info (item ∷ [])

unfoldable pub infonl : Build → Item → List Item
infonl b item = at_level b level_info (item ∷ newline ∷ [])

unfoldable pub infohex : Build → (ℕ → Item) → ℕ → List Item
infohex b kind n = at_level b level_info (in_hex b kind n)

-- WARN, WARNNL and WARNHEX. Below their level the source leaves WARNHEX undefined, so that
-- `print_packet` does not compile.
unfoldable pub warn : Build → Item → List Item
warn b item = at_level b level_warn (item ∷ [])

unfoldable pub warnnl : Build → Item → List Item
warnnl b item = at_level b level_warn (item ∷ newline ∷ [])

unfoldable pub warnhex : Build → (ℕ → Item) → ℕ → List Item
warnhex b kind n = at_level b level_warn (in_hex b kind n)

-- ERR and ERRNL
unfoldable pub err : Build → Item → List Item
err b item = at_level b level_err (item ∷ [])

unfoldable pub errnl : Build → Item → List Item
errnl b item = at_level b level_err (item ∷ newline ∷ [])

-- FATAL and FATALNL
unfoldable pub fatal : Build → Item → List Item
fatal b item = at_level b level_fatal (item ∷ [])

unfoldable pub fatalnl : Build → Item → List Item
fatalnl b item = at_level b level_fatal (item ∷ newline ∷ [])

abbrev pub say : String → Item
say s = text (codes s)

abbrev pub test : Build → ℕ → ℕ → String → List Item
test b op code name = if op == code then info b (say name) else []

-- `print_op_code`: sixteen tests, one after another
unfoldable pub print_op_code : Build → ℕ → List Item
print_op_code b op =
    test b op Op.dn "DN"
    ++ (test b op Op.bn "BN"
        ++ (test b op Op.gs "GS"
            ++ (test b op Op.td "TD"
                ++ (test b op Op.sc "SC"
                    ++ (test b op Op.bc "BC"
                        ++ (test b op Op.br "BR"
                            ++ (test b op Op.an "AN"
                                ++ (test b op Op.ds "DS"
                                    ++ (test b op Op.bs "BS"
                                        ++ (test b op Op.on "ON"
                                            ++ (test b op Op.acks "AS"
                                                ++ (test b op Op.ms "MS"
                                                    ++ (test b op Op.tr "TR"
                                                        ++ (test b op Op.ss "SS"
                                                            ++ test b op Op.off "OF"))))))))))))))

abbrev pub line : Build → List Item
line b = infonl b (say "|-----------------------------------|")

unfoldable pub print_data : Build → DataHeader → List Item
print_data b h =
    infonl b (say " ")
    ++ line b
    ++ infonl b (say "|         START OF PACKET           |")
    ++ line b
    ++ infonl b (say "|           DATA HEADER             |")
    ++ line b
    ++ (warn b (say "| OP      : ")
        ++ warnhex b byte h.op
        ++ info b (say " <-> ")
        ++ print_op_code b h.op
        ++ warnnl b (say " "))
    ++ (warn b (say "| SLID    : ")
        ++ warn b (number h.slid)
        ++ warn b (say " <-> HEX: ")
        ++ warnhex b number h.slid
        ++ warnnl b (say " "))
    ++ info b (say "| PKG NUM : ")
    ++ infonl b (number h.pkg_num)
    ++ info b (say "| RSSI    : ")
    ++ infonl b (byte h.rssi)
    ++ line b
    ++ infonl b (say "|           END OF PACKET           |")
    ++ line b
    ++ infonl b (say " ")

unfoldable pub print_control : Build → ControlHeader → List Item
print_control b h =
    infonl b (say " ")
    ++ line b
    ++ infonl b (say "|         START OF PACKET           |")
    ++ line b
    ++ infonl b (say "|         CONTROL HEADER            |")
    ++ line b
    ++ (info b (say "| OP      : ")
        ++ infohex b byte h.op
        ++ info b (say " <-> ")
        ++ print_op_code b h.op
        ++ infonl b (say " "))
    ++ (info b (say "| SLID    : ")
        ++ info b (number h.slid)
        ++ info b (say " <-> HEX: ")
        ++ infohex b number h.slid
        ++ infonl b (say " "))
    ++ info b (say "| PKG NUM : ")
    ++ infonl b (number h.pkg_num)
    ++ line b
    ++ infonl b (say "|           END OF PACKET           |")
    ++ line b
    ++ infonl b (say " ")

-- `none` where the header that is read ends outside the packet
unfoldable pub print_packet : Build → List ℕ → Option (List Item)
print_packet b packet =
    if ltb 0 (length packet)
    then (if is_data (byte_at packet 0)
        then (if ltb (length packet) sizeof_data_header
            then none
            else some (print_data b (as_data_header packet)))
        else if ltb (length packet) sizeof_control_header
        then none
        else some (print_control b (as_control_header packet)))
    else none

-- bytes stored from a place on, or `none` where one of them is outside the array
unfoldable pub write : ℕ → List ℕ → List ℕ → Option (List ℕ)
write at bytes buf =
    if ltb (length buf) (at + length bytes)
    then none
    else some (take at buf ++ (bytes ++ drop (at + length bytes) buf))

-- `sprintf(.., "%02x ", (char) x)`: a negative `char` is extended to an `int` first.
unfoldable pub hex_text : Build → ℕ → List ℕ
hex_text b x =
    (if b.char_signed && not (ltb x 128) then codes "ffffff" else [])
    ++ (digit (x / 16) ∷ digit (x % 16) ∷ 32 ∷ [])

unfoldable pub shown : ℕ → ℕ
shown x = if not (ltb x 32) && not (ltb 127 x) then x else 46

abbrev pub row : List ℕ → List ℕ → List Item
row hbuf sbuf = text (c_string hbuf) ∷ text (c_string sbuf) ∷ newline ∷ []

-- the loop of `phex` from its round `i` on, with the arrays' contents, and what follows it
unfoldable pub phex_from : Build → ℕ → ℕ → List ℕ → List ℕ → List ℕ → Option (List Item)
phex_from b i ih hbuf sbuf [] =
    if ltb 0 ih
    then (do
      sbuf' ← write ih (0 ∷ []) sbuf
      hbuf' ← write (ih * 3) (0 ∷ []) hbuf
      some (row hbuf' sbuf'))
    else some []
phex_from b i ih hbuf sbuf (x ∷ rest) = do
  hbuf' ← write (ih * 3) (hex_text b x ++ (0 ∷ [])) hbuf
  sbuf' ← write ih (shown x ∷ []) sbuf
  let full = i % 16 == 15
  later ← phex_from b (suc i) (if full then 0 else u8 (ih + 1)) hbuf' sbuf' rest
  some ((if full then row hbuf' sbuf' else []) ++ later)

-- `phex(data, length)`, where the two arrays hold `hbuf` and `sbuf` before
unfoldable pub phex : Build → List ℕ → List ℕ → List ℕ → Option (List Item)
phex b hbuf sbuf bytes = phex_from b 0 0 (set hbuf 48 0) (set sbuf 16 0) bytes

abbrev pub at_level_or_none : Build → ℕ → Option (List Item) → Option (List Item)
at_level_or_none b level items = if ltb b.debug_enabled level then some [] else items

-- INFOPHEX, WARNPHEX, ERRPHEX and FATALPHEX
unfoldable pub infophex : Build → List ℕ → List ℕ → List ℕ → Option (List Item)
infophex b hbuf sbuf bytes = at_level_or_none b level_info (phex b hbuf sbuf bytes)

unfoldable pub warnphex : Build → List ℕ → List ℕ → List ℕ → Option (List Item)
warnphex b hbuf sbuf bytes = at_level_or_none b level_warn (phex b hbuf sbuf bytes)

unfoldable pub errphex : Build → List ℕ → List ℕ → List ℕ → Option (List Item)
errphex b hbuf sbuf bytes = at_level_or_none b level_err (phex b hbuf sbuf bytes)

unfoldable pub fatalphex : Build → List ℕ → List ℕ → List ℕ → Option (List Item)
fatalphex b hbuf sbuf bytes = at_level_or_none b level_fatal (phex b hbuf sbuf bytes)

-- INFOPKT and WARNPKT
unfoldable pub infopkt : Build → List ℕ → Option (List Item)
infopkt b packet = at_level_or_none b level_info (print_packet b packet)

unfoldable pub warnpkt : Build → List ℕ → Option (List Item)
warnpkt b packet = at_level_or_none b level_warn (print_packet b packet)

-- `millis` of a program built with `UNIX`
abbrev pub unix_millis : ℕ
unix_millis = 0
