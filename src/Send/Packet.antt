-- ===== src/Send/Packet.antt =====
-- The packet that `send_data` builds, and the state in which it is handed to `generic_send`.
use Prim.Native.Nat.add
use steamlink_arduino.Prelude.{
  ℕ, zero, suc, ◌+◌, ◌≤◌, ◌<◌, ◌≡◌, refl, ap, ap₂, ◌∙◌, List, ◌++◌, append-nil, arith, length, take,
  drop, length-take, length-append, length-drop, take-append, take_all, drop_all, ltb, Bool-cases,
  inl, inr, sym, false, if◌then◌else◌,
}
use steamlink_arduino.Wire.{data_header_bytes, sizeof_data_header, DataHeader, byte_at, is_data}
use steamlink_arduino.System.{Env, System, Node, returns, fill, memcpy, ◌>>=◌, read_byte}
use steamlink_arduino.Send.{header_of, build_packet, warnpkt}

pub length-fill : (f : ℕ → ℕ) (n : ℕ) → length (fill f n) ≡ n
length-fill f zero = refl
length-fill f (suc n) = ap suc (length-fill (λ i. f (suc i)) n)

-- A copy inside both buffers.
pub memcpy_lem :
    (dst : List ℕ) (at : ℕ) (src : List ℕ) (n : ℕ) (s : System)
    → n ≤ length src
    → at + n ≤ length dst
    → memcpy dst at src n s ≡ returns (take at dst ++ (take n src ++ drop (at + n) dst)) s
unfolding memcpy
memcpy_lem dst at src n s h k = ground arith

pub memcpy_start :
    (dst src : List ℕ) (n : ℕ) (s : System)
    → n ≤ length src
    → n ≤ length dst
    → memcpy dst 0 src n s ≡ returns (take n src ++ drop n dst) s
unfolding memcpy
memcpy_start dst src n s h k = rw add.zero (ground arith)

pub read_byte_lem :
    (b : List ℕ) (i : ℕ) (s : System) → i < length b → read_byte b i s ≡ returns (byte_at b i) s
unfolding read_byte
read_byte_lem b i s h = ground arith

-- The header of a packet lies in its buffer.
abbrev pub IsWhole : List ℕ → Type 0
IsWhole packet = (if is_data (byte_at packet 0) then 8 else 7) ≤ length packet

pub warnpkt_lem : (packet : List ℕ) (s : System) → IsWhole packet → warnpkt packet s ≡ returns tt s
unfolding warnpkt read_byte
warnpkt_lem packet s h = ground arith

pub IsWhole-long : (packet : List ℕ) → 8 ≤ length packet → IsWhole packet
IsWhole-long packet h = ground arith

pub IsWhole-control :
    (packet : List ℕ) → is_data (byte_at packet 0) ≡ false → 7 ≤ length packet → IsWhole packet
IsWhole-control packet d h = rw d h

pub IsWhole-lt : (packet : List ℕ) → IsWhole packet → 0 < length packet
IsWhole-lt packet h = ground arith

pub length-data_header_bytes : (h : DataHeader) → length (data_header_bytes h) ≡ 8
unfolding data_header_bytes
length-data_header_bytes h = refl

-- what `malloc` gives next
abbrev pub fresh_buffer : Env → System → ℕ → List ℕ
fresh_buffer env s n = fill (env.uninitialised s.allocated) n

abbrev pub packet_of : Env → System → Node → ℕ → List ℕ → ℕ → List ℕ
packet_of env s n op payload payload_length =
    data_header_bytes (header_of n op (fresh_buffer env s (payload_length + 8)))
    ++ take payload_length payload

pub length-packet_of :
    (env : Env) (s : System) (n : Node) (op : ℕ) (payload : List ℕ) (k : ℕ)
    → k ≤ length payload
    → k + 8 ≡ length (packet_of env s n op payload k)
length-packet_of env s n op payload k h =
    let header = header_of n op (fresh_buffer env s (k + 8)) in
    omega (
      arith,
      length-append (data_header_bytes header) (take k payload),
      length-data_header_bytes header,
      length-take k payload,
    )

-- The header goes to the start of a buffer, the payload behind it.
write_header :
    (h : DataHeader) (fresh : List ℕ) (s : System)
    → 8 ≤ length fresh
    → memcpy fresh 0 (data_header_bytes h) sizeof_data_header s
      ≡ returns (data_header_bytes h ++ drop 8 fresh) s
write_header h fresh s l =
    memcpy_lem fresh 0 (data_header_bytes h) 8 s (omega (arith, length-data_header_bytes h)) l
    ∙ ap (λ b. returns (b ++ drop 8 fresh) s)
        (take_all 8 (data_header_bytes h) (omega (arith, length-data_header_bytes h)))

write_payload :
    (h : DataHeader) (rest payload : List ℕ) (k : ℕ) (s : System)
    → length rest ≡ k
    → k ≤ length payload
    → memcpy (data_header_bytes h ++ rest) sizeof_data_header payload k s
      ≡ returns (data_header_bytes h ++ take k payload) s
write_payload h rest payload k s r l =
    memcpy_lem (data_header_bytes h ++ rest) 8 payload k s l
      (omega (arith, length-append (data_header_bytes h) rest, length-data_header_bytes h))
    ∙ ap₂ (λ a b. returns (a ++ (take k payload ++ b)) s)
        (take-append 8 (data_header_bytes h) rest (sym (length-data_header_bytes h)))
        (drop_all (8 + k) (data_header_bytes h ++ rest)
          (omega (arith, length-append (data_header_bytes h) rest, length-data_header_bytes h)))
    ∙ ap (λ b. returns (data_header_bytes h ++ b) s) (append-nil (take k payload))

pub build_packet_lem :
    (env : Env) (n : Node) (op : ℕ) (payload : List ℕ) (k : ℕ) (s : System)
    → k ≤ length payload
    → build_packet env n op (k + 8) payload k s
      ≡ returns (packet_of env s n op payload k) (record s { allocated = s.allocated + 1 })
unfolding build_packet
build_packet_lem env n op payload k s h =
    rw (write_header (header_of n op fresh) fresh s' big, ◌>>=◌)
      (elim (Bool-cases (ltb 0 k)) [
        | inl e ↦ rw e (write_payload (header_of n op fresh) (drop 8 fresh) payload k s' size h)
        | inr e ↦
            let z : k ≡ 0 = ground arith in
            rw e (
              ap (λ b. returns (data_header_bytes (header_of n op fresh) ++ b) s')
                (drop_all 8 fresh
                    (omega (arith, length-fill (env.uninitialised s.allocated) (k + 8)))
                  ∙ ap (λ m. take m payload) (sym z)))
      ])
  where
    fresh : List ℕ
    fresh = fresh_buffer env s (k + 8)

    s' : System
    s' = record s { allocated = s.allocated + 1 }

    big : 8 ≤ length fresh
    big = omega (arith, length-fill (env.uninitialised s.allocated) (k + 8))

    size : length (drop 8 fresh) ≡ k
    size = omega (arith, length-drop 8 fresh, length-fill (env.uninitialised s.allocated) (k + 8))
