-- ===== src/Debug/Packet.antt =====
-- What `print_packet` and `print_op_code` tell of a packet, at each level of output.
use steamlink_arduino.Prelude.{
  ℕ, ◌≤◌, ◌∙◌, ◌+◌, ◌-◌, subst, ltb→lt, ◌&&◌, zero, suc, ◌<◌, ◌^◌, ◌≡◌, refl, ap, true, false, List,
  [], ◌∷◌, ◌++◌, Option, none, some, arith, ltb, ◌==◌, if◌then◌else◌, ◌⊎◌, Bool-cases, inl, inr,
}
use steamlink_arduino.Prelude.Text.{codes}
use Prim.Native.String.{String}
use steamlink_arduino.Wire.{
  DataHeader, ControlHeader, data_header_bytes, control_header_bytes, is_data,
}
use steamlink_arduino.Wire.RoundTrip.{data_header_round_trip, control_header_round_trip}
use steamlink_arduino.Debug.{
  Build, Item, text, number, byte, hexadecimal, std_hex, newline, say, level_info, level_warn, info,
  infonl, infohex, warn, warnnl, warnhex, print_op_code, print_data, print_control, print_packet,
  test,
}

-- the numbers in what is printed
abbrev pub numbers : List Item → List ℕ
numbers [] = []
numbers (text t ∷ items) = numbers items
numbers (number n ∷ items) = n ∷ numbers items
numbers (byte n ∷ items) = n ∷ numbers items
numbers (hexadecimal n ∷ items) = n ∷ numbers items
numbers (std_hex ∷ items) = numbers items
numbers (newline ∷ items) = numbers items

numbers-append : (xs ys : List Item) → numbers (xs ++ ys) ≡ numbers xs ++ numbers ys
numbers-append [] ys = refl
numbers-append (text t ∷ xs) ys = numbers-append xs ys
numbers-append (number n ∷ xs) ys = ap (◌∷◌ n) (numbers-append xs ys)
numbers-append (byte n ∷ xs) ys = ap (◌∷◌ n) (numbers-append xs ys)
numbers-append (hexadecimal n ∷ xs) ys = ap (◌∷◌ n) (numbers-append xs ys)
numbers-append (std_hex ∷ xs) ys = numbers-append xs ys
numbers-append (newline ∷ xs) ys = numbers-append xs ys

numbers-info : (b : Build) (s : String) → numbers (info b (say s)) ≡ []
unfolding info
numbers-info b s = ground arith

numbers-test : (b : Build) (op code : ℕ) (name : String) → numbers (test b op code name) ≡ []
unfolding info
numbers-test b op code name = ground arith

numbers-print_op_code : (b : Build) (op : ℕ) → numbers (print_op_code b op) ≡ []
unfolding print_op_code
numbers-print_op_code b op = simp (numbers-append, numbers-test) refl

-- what is told at each level: nothing, `some_of` or all
abbrev pub told : Build → List ℕ → List ℕ → List ℕ
told b some_of whole =
    if ltb b.debug_enabled level_info
    then (if ltb b.debug_enabled level_warn then [] else some_of)
    else whole

numbers-print_data :
    (b : Build) (h : DataHeader)
    → numbers (print_data b h)
      ≡ told b (h.op ∷ h.slid ∷ h.slid ∷ []) (h.op ∷ h.slid ∷ h.slid ∷ h.pkg_num ∷ h.rssi ∷ [])
unfolding print_data info infonl warn warnnl warnhex
numbers-print_data b h =
    simp (numbers-append, numbers-print_op_code)
      (elim (Bool-cases (ltb b.debug_enabled level_info)) [
        | inl e ↦ elim (Bool-cases (ltb b.debug_enabled level_warn)) [
          | inl e' ↦ rw (e, e') refl
          | inr e' ↦ elim (Bool-cases b.unix) [
            | inl u ↦ rw (e, e', u) refl
            | inr u ↦ rw (e, e', u) refl
          ]
        ]
        | inr e ↦
            let e' : ltb b.debug_enabled level_warn ≡ false = ground arith in
            elim (Bool-cases b.unix) [ inl u ↦ rw (e, e', u) refl | inr u ↦ rw (e, e', u) refl ]
      ])

numbers-print_control :
    (b : Build) (h : ControlHeader)
    → numbers (print_control b h) ≡ told b [] (h.op ∷ h.slid ∷ h.slid ∷ h.pkg_num ∷ [])
unfolding print_control info infonl infohex
numbers-print_control b h =
    simp (numbers-append, numbers-print_op_code)
      (elim (Bool-cases (ltb b.debug_enabled level_info)) [
        | inl e ↦ elim (Bool-cases (ltb b.debug_enabled level_warn)) [
          | inl e' ↦ rw (e, e') refl
          | inr e' ↦ rw (e, e') refl
        ]
        | inr e ↦ elim (Bool-cases b.unix) [ inl u ↦ rw (e, u) refl | inr u ↦ rw (e, u) refl ]
      ])

-- Of a data packet, the full output tells the header in order, the SLID twice; the warnings, which
-- are the level that the source sets, tell its op code and SLID.
pub print_packet-data :
    (b : Build) (h : DataHeader) (payload : List ℕ)
    → is_data h.op ≡ true
    → h.slid < 2 ^ 32
    → h.pkg_num < 2 ^ 16
    → level_warn ≤ b.debug_enabled
    → (items : List Item) × (print_packet b (data_header_bytes h ++ payload) ≡ some items)
      × (numbers items ≡ (
          if ltb b.debug_enabled level_info
          then h.op ∷ h.slid ∷ h.slid ∷ []
          else h.op ∷ h.slid ∷ h.slid ∷ h.pkg_num ∷ h.rssi ∷ []))
unfolding print_packet data_header_bytes
print_packet-data b h payload d s n l = (
  print_data b h,
  rw (d, (data_header_round_trip h payload s n).0) (ground arith),
  numbers-print_data b h
      ∙ (let warned : ltb b.debug_enabled level_warn ≡ false = ground (arith, l) in rw warned refl),
)

pub print_packet-control :
    (b : Build) (h : ControlHeader) (payload : List ℕ)
    → is_data h.op ≡ false
    → h.slid < 2 ^ 32
    → h.pkg_num < 2 ^ 16
    → (items : List Item) × (print_packet b (control_header_bytes h ++ payload) ≡ some items)
      × (numbers items ≡ told b [] (h.op ∷ h.slid ∷ h.slid ∷ h.pkg_num ∷ []))
unfolding print_packet control_header_bytes
print_packet-control b h payload d s n = (
  print_control b h,
  rw (d, (control_header_round_trip h payload s n).0) (ground arith),
  numbers-print_control b h,
)

-- the op codes' names
op_names : List (List ℕ)
op_names =
    codes "DN"
    ∷ codes "DS"
    ∷ codes "BN"
    ∷ codes "BS"
    ∷ codes "GS"
    ∷ codes "ON"
    ∷ codes "TD"
    ∷ codes "AS"
    ∷ codes "SC"
    ∷ codes "MS"
    ∷ codes "BC"
    ∷ codes "TR"
    ∷ codes "BR"
    ∷ codes "SS"
    ∷ codes "AN"
    ∷ codes "OF"
    ∷ []

find : ℕ → List (List ℕ) → ℕ → ℕ → Option ℕ
find op ((x' ∷ y' ∷ []) ∷ rest) x y =
    let later = find (suc op) rest x y in if x == x' && y == y' then some op else later
find op names x y = none

-- the op code that a name of two letters stands for
pub read_name : List Item → Option ℕ
read_name [] = none
read_name (text (x ∷ y ∷ []) ∷ []) = find 48 op_names x y
read_name (item ∷ items) = none

named :
    (b : Build) (k : ℕ)
    → k < 16
    → ltb b.debug_enabled level_info ≡ false
    → read_name (print_op_code b (48 + k)) ≡ some (48 + k)
unfolding print_op_code info read_name find op_names
named b zero l e = rw e refl
named b (suc zero) l e = rw e refl
named b (suc (suc zero)) l e = rw e refl
named b (suc (suc (suc zero))) l e = rw e refl
named b (suc (suc (suc (suc zero)))) l e = rw e refl
named b (suc (suc (suc (suc (suc zero))))) l e = rw e refl
named b (suc (suc (suc (suc (suc (suc zero)))))) l e = rw e refl
named b (suc (suc (suc (suc (suc (suc (suc zero))))))) l e = rw e refl
named b (suc (suc (suc (suc (suc (suc (suc (suc zero)))))))) l e = rw e refl
named b (suc (suc (suc (suc (suc (suc (suc (suc (suc zero))))))))) l e = rw e refl
named b (suc (suc (suc (suc (suc (suc (suc (suc (suc (suc zero)))))))))) l e = rw e refl
named b (suc (suc (suc (suc (suc (suc (suc (suc (suc (suc (suc zero))))))))))) l e = rw e refl
named b (suc (suc (suc (suc (suc (suc (suc (suc (suc (suc (suc (suc zero)))))))))))) l e = rw e refl
named b (suc (suc (suc (suc (suc (suc (suc (suc (suc (suc (suc (suc (suc zero))))))))))))) l e =
    rw e refl
named b (suc (suc (suc (suc (suc (suc (suc (suc (suc (suc (suc (suc (suc (suc zero)))))))))))))) l
      e =
    rw e refl
named b
      (suc (suc (suc (suc (suc (suc (suc (suc (suc (suc (suc (suc (suc (suc (suc zero)))))))))))))))
      l e =
    rw e refl
named b
      (suc
        (suc (suc (suc (suc (suc (suc (suc (suc (suc (suc (suc (suc (suc (suc (suc k))))))))))))))))
      l e =
    absurd (omega arith)

unnamed : (b : Build) (op : ℕ) → (op < 48) ⊎ (63 < op) → print_op_code b op ≡ []
unfolding print_op_code info
unnamed b op h = ground arith

silent : (b : Build) (op : ℕ) → ltb b.debug_enabled level_info ≡ true → print_op_code b op ≡ []
unfolding print_op_code info
silent b op e =
    let nothing : (code : ℕ) (name : String) → test b op code name ≡ [] =
      λ code name. ground (arith, e) in
    simp nothing refl

-- With full output, `print_op_code` prints a name of two letters for each op code from 0x30 to
-- 0x3F, a different one for each, so that it can be read back; what it prints for any other number,
-- or below that level, reads as no name.
pub print_op_code_round_trip :
    (b : Build) (op : ℕ)
    → read_name (print_op_code b op) ≡ (
        if ltb b.debug_enabled level_info
        then none
        else if ltb op 48
        then none
        else if ltb 63 op
        then none
        else some op)
unfolding read_name
print_op_code_round_trip b op = elim (Bool-cases (ltb b.debug_enabled level_info)) [
  | inl e ↦ rw (e, silent b op e) refl
  | inr e ↦ elim (Bool-cases (ltb op 48)) [
    | inl l ↦ rw (e, l, unnamed b op (inl (ltb→lt op 48 l))) refl
    | inr l ↦ elim (Bool-cases (ltb 63 op)) [
      | inl m ↦ rw (e, l, m, unnamed b op (inr (ltb→lt 63 op m))) refl
      | inr m ↦
          let k : 48 + (op - 48) ≡ op = ground arith in
          rw (e, l, m)
            (subst (λ n. read_name (print_op_code b n) ≡ some n) k
              (named b (op - 48) (ground arith) e))
    ]
  ]
]
