-- ===== src/Debug/Arrays.antt =====
-- The two arrays of `phex`, and what they hold while a row is gathered.
use steamlink_arduino.Prelude.{
  ℕ, suc, ◌+◌, ◌*◌, ◌/◌, ◌%◌, ◌<◌, ◌≤◌, ◌≡◌, refl, sym, ap, ◌∙◌, false, ◌⊎◌, inl, inr, List, [],
  ◌∷◌, ◌++◌, some, arith, length, drop, take-append, drop-append, length-append, length-drop, ap₂,
}
use steamlink_arduino.Prelude.Text.{digit, c_string}
use steamlink_arduino.Debug.{Build, Item, text, newline, write, hex_text, shown, row}

-- two digits and a space for each byte
abbrev pub in_hex : List ℕ → List ℕ
in_hex [] = []
in_hex (x ∷ xs) = digit (x / 16) ∷ digit (x % 16) ∷ 32 ∷ in_hex xs

-- each byte as a character, or as a dot
abbrev pub as_text : List ℕ → List ℕ
as_text [] = []
as_text (x ∷ xs) = shown x ∷ as_text xs

abbrev pub line : List ℕ → List Item
line bytes = text (in_hex bytes) ∷ text (as_text bytes) ∷ newline ∷ []

-- A write behind `front`, into what stands there.
pub write_at :
    (front bytes rest buf : List ℕ) (at : ℕ)
    → buf ≡ front ++ rest
    → at ≡ length front
    → length bytes ≤ length rest
    → write at bytes buf ≡ some (front ++ (bytes ++ drop (length bytes) rest))
unfolding write
write_at front bytes rest buf at s e l =
    rw
      (
        s,
        take-append at front rest e,
        drop-append (at + length bytes) (length bytes) front rest (omega (arith, e)),
      )
      (ground (arith, length-append front rest))

pub in_hex-snoc :
    (g t : List ℕ) (x : ℕ)
    → in_hex (g ++ (x ∷ [])) ++ t ≡ in_hex g ++ (digit (x / 16) ∷ digit (x % 16) ∷ 32 ∷ t)
in_hex-snoc [] t x = refl
in_hex-snoc (y ∷ g) t x = ap (λ r. digit (y / 16) ∷ digit (y % 16) ∷ 32 ∷ r) (in_hex-snoc g t x)

as_text-snoc : (g t : List ℕ) (x : ℕ) → as_text (g ++ (x ∷ [])) ++ t ≡ as_text g ++ (shown x ∷ t)
as_text-snoc [] t x = refl
as_text-snoc (y ∷ g) t x = ap (◌∷◌ (shown y)) (as_text-snoc g t x)

pub length-in_hex : (g : List ℕ) → length (in_hex g) ≡ 3 * length g
length-in_hex [] = refl
length-in_hex (x ∷ g) = omega (arith, length-in_hex g)

pub length-as_text : (g : List ℕ) → length (as_text g) ≡ length g
length-as_text [] = refl
length-as_text (x ∷ g) = ap suc (length-as_text g)

-- Neither a digit nor a shown character is a NUL, so the text ends at the first one behind it.
pub c_string-in_hex : (g t : List ℕ) → c_string (in_hex g ++ (0 ∷ t)) ≡ in_hex g
c_string-in_hex [] t = refl
c_string-in_hex (x ∷ g) t = rw (c_string-in_hex g t) (ground arith)

pub c_string-as_text : (g t : List ℕ) → c_string (as_text g ++ (0 ∷ t)) ≡ as_text g
unfolding shown
c_string-as_text [] t = refl
c_string-as_text (x ∷ g) t = rw (c_string-as_text g t) (ground arith)

-- Each byte's hexadecimal text has two digits.
abbrev pub Narrow : Build → List ℕ → Type 0
Narrow b [] = Unit
Narrow b (x ∷ xs) = ((b.char_signed ≡ false) ⊎ (x < 128)) × Narrow b xs

hex_text-Narrow :
    (b : Build) (x : ℕ)
    → (b.char_signed ≡ false) ⊎ (x < 128)
    → hex_text b x ≡ digit (x / 16) ∷ digit (x % 16) ∷ 32 ∷ []
unfolding hex_text
hex_text-Narrow b x (inl h) = rw h refl
hex_text-Narrow b x (inr h) = ground arith

-- What the arrays hold once the bytes `g` are in them.
pub record Holds (g hbuf sbuf : List ℕ) : Type 0 where
  pub hex_rest : List ℕ
  pub text_rest : List ℕ
  pub hbuf_is : hbuf ≡ in_hex g ++ hex_rest
  pub sbuf_is : sbuf ≡ as_text g ++ (text_rest ++ (0 ∷ []))
  pub hex_size : length hex_rest + 3 * length g ≡ 49
  pub text_size : length text_rest + length g ≡ 16

drop_1 : (st : List ℕ) → 0 < length st → drop 1 (st ++ (0 ∷ [])) ≡ drop 1 st ++ (0 ∷ [])
drop_1 [] h = absurd (omega arith)
drop_1 (x ∷ st) h = refl

-- One more byte in the arrays.
pub gather :
    (b : Build) (g hbuf sbuf : List ℕ) (x ih : ℕ)
    → Holds g hbuf sbuf
    → (b.char_signed ≡ false) ⊎ (x < 128)
    → ih ≡ length g
    → ih < 16
    → (hbuf' : List ℕ) × (sbuf' : List ℕ) × (write (ih * 3) (hex_text b x ++ (0 ∷ [])) hbuf
        ≡ some hbuf')
      × (write ih (shown x ∷ []) sbuf ≡ some sbuf')
      × Holds (g ++ (x ∷ [])) hbuf' sbuf'
      × (c_string hbuf' ≡ in_hex (g ++ (x ∷ [])))
gather b g hbuf sbuf x ih h n e l =
    let ht = drop 4 h.hex_rest in
    let st = drop 1 h.text_rest in
    let bytes = digit (x / 16) ∷ digit (x % 16) ∷ 32 ∷ 0 ∷ [] in
    let g' = g ++ (x ∷ []) in
    let len : length g' ≡ length g + 1 = length-append g (x ∷ []) in
    let hex_written =
      ap (λ t. write (ih * 3) (t ++ (0 ∷ [])) hbuf) (hex_text-Narrow b x n)
      ∙ write_at (in_hex g) bytes h.hex_rest hbuf (ih * 3) h.hbuf_is
          (omega (arith, length-in_hex g, e)) (omega (arith, h.hex_size, e))
      ∙ ap some (sym (in_hex-snoc g (0 ∷ ht) x)) in
    let text_written =
      write_at (as_text g) (shown x ∷ []) (h.text_rest ++ (0 ∷ [])) sbuf ih h.sbuf_is
        (omega (arith, length-as_text g, e)) (omega (arith, length-append h.text_rest (0 ∷ [])))
      ∙ ap (λ t. some (as_text g ++ (shown x ∷ t)))
          (drop_1 h.text_rest (omega (arith, h.text_size, e)))
      ∙ ap some (sym (as_text-snoc g (st ++ (0 ∷ [])) x)) in
    (
      in_hex g' ++ (0 ∷ ht),
      as_text g' ++ (st ++ (0 ∷ [])),
      hex_written,
      text_written,
      record {
        hex_rest = 0 ∷ ht;
        text_rest = st;
        hbuf_is = refl;
        sbuf_is = refl;
        hex_size = omega (arith, h.hex_size, len, e, length-drop 4 h.hex_rest);
        text_size = omega (arith, h.text_size, len, e, length-drop 1 h.text_rest);
      },
      c_string-in_hex g' ht,
    )

pub nil : (xs : List ℕ) → length xs ≡ 0 → xs ≡ []
nil [] e = refl
nil (x ∷ xs) e = absurd (omega arith)

-- `sbuf` once sixteen bytes are in it
pub full_text :
    (g hbuf sbuf : List ℕ) → Holds g hbuf sbuf → length g ≡ 16 → sbuf ≡ as_text g ++ (0 ∷ [])
full_text g hbuf sbuf h e =
    h.sbuf_is
    ∙ ap (λ t. as_text g ++ (t ++ (0 ∷ []))) (nil h.text_rest (omega (arith, h.text_size, e)))

-- Full arrays, seen as empty ones for the next row.
pub again : (g hbuf sbuf : List ℕ) → Holds g hbuf sbuf → length g ≡ 16 → Holds [] hbuf sbuf
again g hbuf sbuf h e = record {
  hex_rest = hbuf;
  text_rest = as_text g;
  hbuf_is = refl;
  sbuf_is = full_text g hbuf sbuf h e;
  hex_size = omega (
    arith,
    ap length h.hbuf_is,
    length-append (in_hex g) h.hex_rest,
    length-in_hex g,
    h.hex_size,
  );
  text_size = omega (arith, length-as_text g, e);
}

-- The NULs behind a row that is not full.
pub finish :
    (g hbuf sbuf : List ℕ) (ih : ℕ)
    → Holds g hbuf sbuf
    → ih ≡ length g
    → ih < 16
    → (hbuf' : List ℕ) × (sbuf' : List ℕ) × (write ih (0 ∷ []) sbuf ≡ some sbuf')
      × (write (ih * 3) (0 ∷ []) hbuf ≡ some hbuf')
      × (row hbuf' sbuf' ≡ line g)
finish g hbuf sbuf ih h e l =
    let ht = drop 1 h.hex_rest in
    let st = drop 1 (h.text_rest ++ (0 ∷ [])) in
    (
      in_hex g ++ (0 ∷ ht),
      as_text g ++ (0 ∷ st),
      write_at (as_text g) (0 ∷ []) (h.text_rest ++ (0 ∷ [])) sbuf ih h.sbuf_is
          (omega (arith, length-as_text g, e)) (omega (arith, length-append h.text_rest (0 ∷ []))),
      write_at (in_hex g) (0 ∷ []) h.hex_rest hbuf (ih * 3) h.hbuf_is
          (omega (arith, length-in_hex g, e)) (omega (arith, h.hex_size, e)),
      ap₂ (λ t t'. text t ∷ text t' ∷ newline ∷ []) (c_string-in_hex g ht) (c_string-as_text g st),
    )
