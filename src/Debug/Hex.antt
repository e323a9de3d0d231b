-- ===== src/Debug/Hex.antt =====
-- `phex` against a description of what it prints: rows of sixteen bytes, in hexadecimal and as text.
use steamlink_arduino.Prelude.{
  ℕ, zero, suc, ◌+◌, ◌*◌, ◌%◌, ◌<◌, ◌≤◌, ◌≡◌, refl, sym, ap, ◌∙◌, Bool, true, false, ◌⊎◌, inl, inr,
  List, [], ◌∷◌, ◌++◌, none, some, arith, ◌==◌, length, take, set, length-append, length-set,
  length-take, Bool-cases, ap₂, lt→ltb, ==_iff, ◌≢◌, if◌then◌else◌,
}
use steamlink_arduino.Prelude.Options.{◌>>=◌}
use steamlink_arduino.Prelude.Text.{c_string}
use steamlink_arduino.Debug.{
  Build, Item, text, newline, write, hex_text, shown, row, phex_from, phex,
}
use steamlink_arduino.Wire.{u8}
use steamlink_arduino.Debug.Arrays.{
  in_hex, line, Narrow, Holds, nil, full_text, again, finish, gather, c_string-as_text,
  length-in_hex,
}

-- The rows that come of the bytes gathered so far and of those to come.
abbrev pub rows : List ℕ → List ℕ → List Item
rows [] [] = []
rows (x ∷ xs) [] = line (x ∷ xs)
rows gathered (y ∷ ys) =
    let full = rows [] ys in
    let more = rows (gathered ++ (y ∷ [])) ys in
    elim (length gathered == 15) [ true ↦ line (gathered ++ (y ∷ [])) ++ full | false ↦ more ]

-- One round of the loop, with its writes done.
round :
    (b : Build) (i ih x : ℕ) (hbuf sbuf hbuf' sbuf' bytes : List ℕ) (full : Bool)
    → write (ih * 3) (hex_text b x ++ (0 ∷ [])) hbuf ≡ some hbuf'
    → write ih (shown x ∷ []) sbuf ≡ some sbuf'
    → (i % 16 == 15) ≡ full
    → phex_from b i ih hbuf sbuf (x ∷ bytes) ≡ (
        phex_from b (suc i) (if full then 0 else u8 (ih + 1)) hbuf' sbuf' bytes >>= λ later.
        some ((if full then row hbuf' sbuf' else []) ++ later))
unfolding phex_from
round b i ih x hbuf sbuf hbuf' sbuf' bytes full w w' f = rw (w, w', f) refl

-- The loop between two rounds: `g` are the bytes of the row so far.
record Loop (i ih : ℕ) (g hbuf sbuf : List ℕ) : Type 0 where
  pub holds : Holds g hbuf sbuf
  pub index : ih ≡ length g
  pub place : i % 16 ≡ ih

-- After a round the arrays hold a longer row, or it is printed and the next one is empty.
advance :
    (b : Build) (i ih x : ℕ) (g hbuf sbuf bytes : List ℕ)
    → Loop i ih g hbuf sbuf
    → (b.char_signed ≡ false) ⊎ (x < 128)
    → (ih' : ℕ) × (g' : List ℕ) × (hbuf' : List ℕ) × (sbuf' : List ℕ) × (front : List Item) × Loop
        (suc i)
        ih'
        g'
        hbuf'
        sbuf'
      × (phex_from b i ih hbuf sbuf (x ∷ bytes)
          ≡ (phex_from b (suc i) ih' hbuf' sbuf' bytes >>= λ later. some (front ++ later)))
      × (rows g (x ∷ bytes) ≡ front ++ rows g' bytes)
advance b i ih x g hbuf sbuf bytes l n =
    let (hbuf', sbuf', w, w', h, t) =
      gather b g hbuf sbuf x ih l.holds n l.index (omega (arith, l.place)) in
    let g' = g ++ (x ∷ []) in
    let len : length g' ≡ length g + 1 = length-append g (x ∷ []) in
    elim (Bool-cases (length g == 15)) [
      | inl f ↦
          let is_15 : length g ≡ 15 = (==_iff (length g) 15).0 f in
          let full : length g' ≡ 16 = omega (arith, len, is_15) in
          let last : (i % 16 == 15) ≡ true = ground (arith, l.place, l.index, is_15) in
          let texts : row hbuf' sbuf' ≡ line g' =
            ap₂ (λ t t'. text t ∷ text t' ∷ newline ∷ []) t
              (ap c_string (full_text g' hbuf' sbuf' h full) ∙ c_string-as_text g' []) in
          (
            0,
            [],
            hbuf',
            sbuf',
            row hbuf' sbuf',
            record {
              holds = again g' hbuf' sbuf' h full;
              index = refl;
              place = omega (arith, l.place, l.index, is_15);
            },
            round b i ih x hbuf sbuf hbuf' sbuf' bytes true w w' last,
            rw (rows, f) (ap (λ r. r ++ rows [] bytes) (sym texts)),
          )
      | inr f ↦
          let not_15 : length g ≢ 15 = λ q. ground (arith, f, q) in
          let last : (i % 16 == 15) ≡ false = ground (arith, l.place, l.index, f) in
          (
            u8 (ih + 1),
            g',
            hbuf',
            sbuf',
            [],
            record {
              holds = h;
              index = omega (arith, l.place, l.index, len);
              place = omega (arith, l.place, l.index, not_15);
            },
            round b i ih x hbuf sbuf hbuf' sbuf' bytes false w w' last,
            rw (rows, f) refl,
          )
    ]

phex_from_lem :
    (b : Build) (i ih : ℕ) (g hbuf sbuf bytes : List ℕ)
    → Loop i ih g hbuf sbuf
    → Narrow b bytes
    → phex_from b i ih hbuf sbuf bytes ≡ some (rows g bytes)
unfolding phex_from
phex_from_lem b i ih [] hbuf sbuf [] l n = rw l.index refl
phex_from_lem b i ih (y ∷ g) hbuf sbuf [] l n =
    let (hbuf', sbuf', w, w', r) =
      finish (y ∷ g) hbuf sbuf ih l.holds l.index (omega (arith, l.place)) in
    rw (w, w', lt→ltb 0 ih (omega (arith, l.index))) (ap some r)
phex_from_lem b i ih g hbuf sbuf (x ∷ bytes) l (n, ns) =
    let (ih', g', hbuf', sbuf', front, l', run, r) = advance b i ih x g hbuf sbuf bytes l n in
    run
    ∙ ap (λ o. o >>= λ later. some (front ++ later))
        (phex_from_lem b (suc i) ih' g' hbuf' sbuf' bytes l' ns)
    ∙ ap some (sym r)

-- Nine places and a NUL do not fit behind fourteen bytes.
no_room :
    (b : Build) (x ih : ℕ) (hbuf : List ℕ)
    → b.char_signed ≡ true
    → 128 ≤ x
    → length hbuf ≡ 49
    → 14 ≤ ih
    → write (ih * 3) (hex_text b x ++ (0 ∷ [])) hbuf ≡ none
unfolding write hex_text
no_room b x ih hbuf c h l f = rw c (ground arith)

phex_from_overflows :
    (b : Build) (i ih x : ℕ) (g hbuf sbuf before after : List ℕ)
    → Loop i ih g hbuf sbuf
    → Narrow b before
    → b.char_signed ≡ true
    → 128 ≤ x
    → 14 ≤ (i + length before) % 16
    → phex_from b i ih hbuf sbuf (before ++ (x ∷ after)) ≡ none
unfolding phex_from
phex_from_overflows b i ih x g hbuf sbuf [] after l n c h f =
    let size : length hbuf ≡ 49 = omega (
      arith,
      ap length l.holds.hbuf_is,
      length-append (in_hex g) l.holds.hex_rest,
      length-in_hex g,
      l.holds.hex_size,
    ) in
    rw (no_room b x ih hbuf c h size (omega (arith, l.place, f))) refl
phex_from_overflows b i ih x g hbuf sbuf (y ∷ before) after l (n, ns) c h f =
    let (ih', g', hbuf', sbuf', front, l', run, r) =
      advance b i ih y g hbuf sbuf (before ++ (x ∷ after)) l n in
    run
    ∙ ap (λ o. o >>= λ later. some (front ++ later))
        (phex_from_overflows b (suc i) ih' x g' hbuf' sbuf' before after l' ns c h
          (omega (arith, f)))

set_last : (xs : List ℕ) (n v : ℕ) → length xs ≡ suc n → set xs n v ≡ take n xs ++ (v ∷ [])
set_last [] n v e = absurd (omega arith)
set_last (x ∷ xs) zero v e = ap (λ t. v ∷ t) (nil xs (omega arith))
set_last (x ∷ xs) (suc n) v e = ap (◌∷◌ x) (set_last xs n v (omega arith))

begin :
    (hbuf sbuf : List ℕ)
    → length hbuf ≡ 49
    → length sbuf ≡ 17
    → Loop 0 0 [] (set hbuf 48 0) (set sbuf 16 0)
begin hbuf sbuf l m = record {
  holds = record {
    hex_rest = set hbuf 48 0;
    text_rest = take 16 sbuf;
    hbuf_is = refl;
    sbuf_is = set_last sbuf 16 0 m;
    hex_size = omega (arith, length-set hbuf 48 0, l);
    text_size = omega (arith, length-take 16 sbuf, m);
  };
  index = refl;
  place = refl;
}

-- Where no byte is a negative `char`, `phex` stays inside its two arrays, whatever they held before,
-- and prints the rows of sixteen bytes, each in hexadecimal and as text, with the last row shorter.
pub phex_lem :
    (b : Build) (hbuf sbuf bytes : List ℕ)
    → length hbuf ≡ 49
    → length sbuf ≡ 17
    → Narrow b bytes
    → phex b hbuf sbuf bytes ≡ some (rows [] bytes)
unfolding phex
phex_lem b hbuf sbuf bytes l m n =
    phex_from_lem b 0 0 [] (set hbuf 48 0) (set sbuf 16 0) bytes (begin hbuf sbuf l m) n

-- Where `char` is signed, a byte from 0x80 on takes nine places. As the last or the last but one of
-- a row it is written past the end of `hbuf`.
pub phex_overflows :
    (b : Build) (hbuf sbuf before after : List ℕ) (x : ℕ)
    → length hbuf ≡ 49
    → length sbuf ≡ 17
    → Narrow b before
    → b.char_signed ≡ true
    → 128 ≤ x
    → 14 ≤ length before % 16
    → phex b hbuf sbuf (before ++ (x ∷ after)) ≡ none
unfolding phex
phex_overflows b hbuf sbuf before after x l m n c h f =
    phex_from_overflows b 0 0 x [] (set hbuf 48 0) (set sbuf 16 0) before after
      (begin hbuf sbuf l m) n c h (omega (arith, f))
