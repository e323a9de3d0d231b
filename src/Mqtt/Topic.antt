-- ===== src/Mqtt/Topic.antt =====
-- The topics of a node: create_pub_str and create_sub_str of SteamLinkESP.cpp.
use steamlink_arduino.Prelude.{
  ℕ, ◌-◌, ◌^◌, ◌≤◌, ◌<◌, ◌≡◌, ◌≢◌, refl, sym, ap, ◌∙◌, true, List, [], ◌∷◌, ◌++◌, arith, ltb,
  lt→ltb, append_assoc, if◌then◌else◌, length, take, drop, length-append, take_all,
}
use steamlink_arduino.Prelude.Decimal.{length-digits, read-digits, digits-append}
use steamlink_arduino.Prelude.Text.{codes, digits, decimal, read_decimal}

abbrev pub default_topic_len : ℕ
default_topic_len = 100

-- `snprintf` into a buffer of `size` bytes: as much of the text as fits before a NUL
unfoldable pub snprintf : ℕ → List ℕ → List ℕ
snprintf size text = if ltb 0 size then take (size - 1) text ++ (0 ∷ []) else []

abbrev pub topic_text : List ℕ → ℕ → List ℕ
topic_text word slid = codes "SteamLink/" ++ (decimal slid ++ word)

-- what stands in the buffer up to its NUL
unfoldable pub create_pub_str : ℕ → List ℕ
create_pub_str slid = snprintf default_topic_len (topic_text (codes "/data") slid)

unfoldable pub create_sub_str : ℕ → List ℕ
create_sub_str slid = snprintf default_topic_len (topic_text (codes "/control") slid)

length-topic : (word : List ℕ) (slid : ℕ) → length word ≤ 20 → length (topic_text word slid) ≤ 40
unfolding decimal
length-topic word slid l =
    omega (arith, length-append (digits 10 10 slid []) word, length-digits 10 slid [])

-- A text that leaves room for the NUL is written whole.
snprintf-fits :
    (size : ℕ) (text : List ℕ) → length text < size → snprintf size text ≡ text ++ (0 ∷ [])
unfolding snprintf
snprintf-fits size text l =
    rw (lt→ltb 0 size (omega arith))
      (ap (λ t. t ++ (0 ∷ [])) (take_all (size - 1) text (omega arith)))

-- Any character that is no digit ends the SLID.
read-topic :
    (word : List ℕ) (c slid : ℕ)
    → slid < 2 ^ 32
    → ltb c 48 ≡ true
    → read_decimal 0 (drop 10 (topic_text (c ∷ word) slid ++ (0 ∷ []))) ≡ slid
unfolding decimal
read-topic word c slid l e =
    ap (read_decimal 0) (
      append_assoc (digits 10 10 slid []) (c ∷ word) (0 ∷ [])
      ∙ sym (digits-append 10 slid [] (c ∷ (word ++ (0 ∷ [])))))
    ∙ read-digits 10 slid (c ∷ (word ++ (0 ∷ []))) (omega (arith, l))
    ∙ rw e refl

-- Both topics of a node fit their buffers whole, with the NUL behind them, and the node's SLID can
-- be read back from either.
pub topic_round_trip :
    (slid : ℕ)
    → slid < 2 ^ 32
    → (create_pub_str slid ≡ topic_text (codes "/data") slid ++ (0 ∷ []))
      × (create_sub_str slid ≡ topic_text (codes "/control") slid ++ (0 ∷ []))
      × (read_decimal 0 (drop 10 (create_pub_str slid)) ≡ slid)
      × (read_decimal 0 (drop 10 (create_sub_str slid)) ≡ slid)
unfolding create_pub_str create_sub_str
topic_round_trip slid l =
    let p =
      snprintf-fits 100 (topic_text (codes "/data") slid)
        (omega (arith, length-topic (codes "/data") slid (omega arith))) in
    let c =
      snprintf-fits 100 (topic_text (codes "/control") slid)
        (omega (arith, length-topic (codes "/control") slid (omega arith))) in
    (
      p,
      c,
      ap (λ t. read_decimal 0 (drop 10 t)) p ∙ read-topic (codes "data") 47 slid l refl,
      ap (λ t. read_decimal 0 (drop 10 t)) c ∙ read-topic (codes "control") 47 slid l refl,
    )

words_differ :
    (slid : ℕ)
    → topic_text (codes "/data") slid ++ (0 ∷ []) ≢ topic_text (codes "/control") slid ++ (0 ∷ [])
words_differ slid e =
    let d : ℕ = length (decimal slid) in
    let p = length-append (decimal slid) (codes "/data") in
    let c = length-append (decimal slid) (codes "/control") in
    absurd (
      omega (
        arith,
        ap length e,
        p,
        c,
        length-append (decimal slid ++ codes "/data") (0 ∷ []),
        length-append (decimal slid ++ codes "/control") (0 ∷ []),
      ))

-- No two topics are the same: neither those of two nodes, nor the two of one node.
pub topics_differ :
    (s t : ℕ)
    → s < 2 ^ 32
    → t < 2 ^ 32
    → (create_pub_str s ≢ create_sub_str t)
      × (create_pub_str s ≡ create_pub_str t → s ≡ t)
      × (create_sub_str s ≡ create_sub_str t → s ≡ t)
topics_differ s t l m =
    let (p, c, rp, rc) = topic_round_trip s l in
    let (p', c', rp', rc') = topic_round_trip t m in
    (
      λ e.
          let same : s ≡ t = sym rp ∙ ap (λ x. read_decimal 0 (drop 10 x)) e ∙ rc' in
          words_differ t
            (sym (ap (λ n. topic_text (codes "/data") n ++ (0 ∷ [])) same) ∙ sym p ∙ e ∙ c'),
      λ e. sym rp ∙ ap (λ x. read_decimal 0 (drop 10 x)) e ∙ rp',
      λ e. sym rc ∙ ap (λ x. read_decimal 0 (drop 10 x)) e ∙ rc',
    )
