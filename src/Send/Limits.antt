-- ===== src/Send/Limits.antt =====
-- What `send_data` does with a packet that it may not send, or cannot build, and what the string
-- argument of `send` turns into.
use steamlink_arduino.Prelude.{
  ℕ, ◌+◌, ◌%◌, ◌≤◌, ◌<◌, ◌≡◌, ◌≢◌, refl, true, false, List, [], ◌∷◌, ◌++◌, arith, length,
}
use steamlink_arduino.System.{
  Env, System, Node, Ref, returns, faults, write_out_of_range, node, ◌>>=◌, memcpy,
}
use steamlink_arduino.Send.{
  Handler, header_of, build_packet, send_packet, send_data, send_string, strlen,
}
use steamlink_arduino.Send.Packet.{length-data_header_bytes, length-fill, fresh_buffer}
use steamlink_arduino.Send.Steps.{is_blocked}

-- While an acknowledgement is awaited, a packet that is neither a transport packet nor an
-- acknowledgement is refused: the call returns false and changes nothing.
pub send_data-blocked :
    (env : Env) (handler : Handler) (self : Ref) (op : ℕ) (payload : List ℕ) (k : ℕ) (s : System)
    → is_blocked op (node self s) ≡ true
    → send_data env handler self op payload k s ≡ returns false s
unfolding send_data
send_data-blocked env handler self op payload k s b = rw b

-- The header does not fit into a buffer of fewer than 8 bytes.
build_packet-short :
    (env : Env) (n : Node) (op : ℕ) (payload : List ℕ) (k size : ℕ) (s : System)
    → size < 8
    → build_packet env n op size payload k s ≡ faults write_out_of_range
unfolding build_packet memcpy
build_packet-short env n op payload k size s h = ground (
  arith,
  length-fill (env.uninitialised s.allocated) size,
  length-data_header_bytes (header_of n op (fresh_buffer env s size)),
)

-- A payload of 248 to 255 bytes makes the 8-bit packet length wrap to less than a header, which
-- the test against the maximum never sees: the header is then written past the end of the buffer.
pub send_data-overflows :
    (env : Env) (handler : Handler) (self : Ref) (op : ℕ) (payload : List ℕ) (k : ℕ) (s : System)
    → is_blocked op (node self s) ≡ false
    → 248 ≤ k
    → k < 256
    → send_data env handler self op payload k s ≡ faults write_out_of_range
unfolding send_data send_packet
send_data-overflows env handler self op payload k s b lo hi =
    rw b (ground (arith, build_packet-short env (node self s) op payload k ((k + 8) % 256) s))

-- no byte of the text is the terminator
abbrev pub IsText : List ℕ → Type 0
IsText [] = Unit {0}
IsText (c ∷ cs) = (c ≢ 0) × IsText cs

strlen_lem :
    (text rest : List ℕ) (s : System)
    → IsText text
    → strlen (text ++ (0 ∷ rest)) s ≡ returns (length text) s
unfolding strlen
strlen_lem [] rest s t = refl
strlen_lem (c ∷ cs) rest s t = ground (arith, strlen_lem cs rest s t.1)

-- A string is sent with its terminator, but its length is passed as a `uint8_t`: of a text of `n`
-- characters the first (n + 1) mod 256 bytes go out, so that from 255 characters on the end of
-- the text is lost.
pub send_string-length :
    (env : Env) (handler : Handler) (self : Ref) (op : ℕ) (text rest : List ℕ) (s : System)
    → IsText text
    → send_string env handler self op (text ++ (0 ∷ rest)) s
      ≡ send_data env handler self op (text ++ (0 ∷ rest)) ((length text + 1) % 256) s
unfolding send_string
send_string-length env handler self op text rest s t = rw (strlen_lem text rest s t, ◌>>=◌)
