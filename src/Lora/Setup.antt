-- ===== src/Lora/Setup.antt =====
-- SteamLinkLoRa.h and SteamLinkLoRa.cpp: the constructor, `set_pins` and `init`. What they call of
-- the radio's library and of the board is an argument; what is printed is left out.
use steamlink_arduino.Prelude.{
  ℕ, ◌*◌, ◌≡◌, ◌≢◌, ◌⊎◌, ◌↔◌, refl, ap, sym, ◌∙◌, inl, inr, Bool, true, false, Bool-cases, List, [],
  ◌==◌, not, ==_iff, if◌then◌else◌, arith, subst,
}
use steamlink_arduino.Prelude.Startup.{Startup, ready, hangs, ready_or, is_ready, ◌>>=◌}
use steamlink_arduino.Wire.{NodeCfgStruct}
use steamlink_arduino.Lora.{get_node_from_slid, slid_refused}

-- The calls that set the radio up, over the state of the board and the radio. A frequency or a
-- bandwidth is in Hz.
pub record Board (W : Type 0) : Type 0 where
  pub new_radio : W → W
  pub set_radio_pins : ℕ → ℕ → ℕ → W → W
  pub set_frequency : ℕ → W → W
  pub set_spreading_factor : ℕ → W → W
  pub set_signal_bandwidth : ℕ → W → W
  pub set_preamble_length : ℕ → W → W
  pub set_coding_rate4 : ℕ → W → W
  pub enable_crc : W → W
  pub begin : ℕ → W → W × Bool
  pub random_seed : W → W

-- `struct SteamLinkLoRaConfig`
pub record LoraConfig : Type 0 where
  pub encrypted : Bool
  pub key : List ℕ
  pub mod_conf : ℕ

-- its size, packed, where a pointer has four bytes
abbrev pub sizeof_lora_config : ℕ
sizeof_lora_config = 6

abbrev pub default_frequency : ℕ
default_frequency = 915

-- The fields of `SteamLinkLoRa` that the set-up uses; `has_driver` is `_driver != NULL`.
-- `init` declares a `_conf` of its own, so the field `_conf` is never set.
pub record LoraFields : Type 0 where
  pub slid : ℕ
  pub node_addr : ℕ
  pub encrypted : Bool
  pub key : List ℕ
  pub mod_conf : ℕ
  pub has_driver : Bool
  pub cs_pin : ℕ
  pub reset_pin : ℕ
  pub interrupt_pin : ℕ

-- The constructor, where memory holds `pins` in the fields that are not set.
unfoldable pub new : NodeCfgStruct → ℕ × ℕ × ℕ → Startup LoraFields
new config pins =
    if slid_refused config.slid
    then hangs
    else ready (record {
      slid = config.slid;
      node_addr = get_node_from_slid config.slid;
      encrypted = false;
      key = [];
      mod_conf = 0;
      has_driver = false;
      cs_pin = pins.0;
      reset_pin = pins.1;
      interrupt_pin = pins.2;
    })

unfoldable pub set_pins : ℕ → ℕ → ℕ → LoraFields → LoraFields
set_pins cs reset interrupt d = record d {
  cs_pin = cs;
  reset_pin = reset;
  interrupt_pin = interrupt;
}

unfoldable pub set_modem_config : ℕ → LoraFields → LoraFields
set_modem_config mod_conf d = record d { mod_conf = mod_conf }

-- The rest of its body is a comment.
unfoldable pub update_modem_config : LoraFields → Bool
update_modem_config d = true

module _ {W : Type 0} (board : Board W) where
  -- the calls on a new radio, up to `begin`
  unfoldable pub configure : LoraFields → W → W
  configure d w =
      let w1 = board.set_radio_pins d.cs_pin d.reset_pin d.interrupt_pin (board.new_radio w) in
      let w2 = board.set_frequency (default_frequency * 1000000) w1 in
      let w3 = board.set_spreading_factor 7 w2 in
      let w4 = board.set_signal_bandwidth 125000 w3 in
      let w5 = board.set_preamble_length 8 w4 in
      let w6 = board.set_coding_rate4 5 w5 in board.enable_crc w6

  unfoldable pub start_driver : LoraFields → W → Startup (LoraFields × W)
  start_driver d w =
      let (w', ok) = board.begin (default_frequency * 1000000) (configure d w) in
      if not ok then hangs else ready (record d { has_driver = true }, w')

  unfoldable pub init : LoraConfig → ℕ → LoraFields → W → Startup (LoraFields × W)
  init conf config_length d w =
      let d' = record d { encrypted = conf.encrypted; key = conf.key; mod_conf = conf.mod_conf } in
      if not (config_length == sizeof_lora_config) then hangs else (do
        (d2, w2) ← (if not d'.has_driver then start_driver d' w else ready (d', w))
        if not (update_modem_config d2) then hangs else ready (d2, board.random_seed w2))

-- the fields that `init` takes from a configuration
abbrev pub configured : LoraConfig → LoraFields → LoraFields
configured conf d = record d {
  encrypted = conf.encrypted;
  key = conf.key;
  mod_conf = conf.mod_conf;
}

-- `init` by whether there is a radio, and whether a new one answers
init_running :
    {W : Type 0} (board : Board W) (conf : LoraConfig) (d : LoraFields) (w : W)
    → d.has_driver ≡ true
    → init board conf 6 d w ≡ ready (configured conf d, board.random_seed w)
unfolding init update_modem_config
init_running board conf d w h = rw h refl

pub init_new :
    {W : Type 0} (board : Board W) (conf : LoraConfig) (d : LoraFields) (w : W) (ok : Bool)
    → d.has_driver ≡ false
    → (board.begin 915000000 (configure board d w)).1 ≡ ok
    → init board conf 6 d w ≡ (
        if ok
        then ready (
          record (configured conf d) { has_driver = true },
          board.random_seed (board.begin 915000000 (configure board d w)).0,
        )
        else hangs)
unfolding init start_driver update_modem_config configure
init_new board conf d w true h b = rw (h, b) refl
init_new board conf d w false h b = rw (h, b) refl

with_size :
    {W : Type 0} (board : Board W) (conf : LoraConfig) (d : LoraFields) (w : W)
    → (init board conf 6 d w ≡ hangs) ↔ (
        (◌≢◌ {A = ℕ} 6 6)
        ⊎ ((d.has_driver ≡ false) × ((board.begin 915000000 (configure board d w)).1 ≡ false)))
with_size board conf d w = elim (Bool-cases d.has_driver) [
  | inl h ↦ (
    λ e. absurd (ground (arith, ap is_ready (sym (init_running board conf d w h) ∙ e))),
    λ c. elim c [ inl n ↦ absurd (n refl) | inr (f, b) ↦ absurd (ground (arith, h, f)) ],
  )
  | inr h ↦ elim (Bool-cases (board.begin 915000000 (configure board d w)).1) [
    | inl b ↦ (
      λ e. absurd (ground (arith, ap is_ready (sym (init_new board conf d w true h b) ∙ e))),
      λ c. elim c [ inl n ↦ absurd (n refl) | inr (f, b') ↦ absurd (ground (arith, b, b')) ],
    )
    | inr b ↦ (λ e. inr (h, b), λ c. init_new board conf d w false h b)
  ]
]

-- `init` ends, unless it hangs, and it hangs exactly where the configuration's length is wrong, or
-- where it sets up a radio, for there is none yet, and that one does not answer.
pub init_hangs_iff :
    {W : Type 0} (board : Board W) (conf : LoraConfig) (config_length : ℕ) (d : LoraFields) (w : W)
    → (init board conf config_length d w ≡ hangs) ↔ (
        (config_length ≢ 6)
        ⊎ ((d.has_driver ≡ false) × ((board.begin 915000000 (configure board d w)).1 ≡ false)))
unfolding init
init_hangs_iff board conf config_length d w = elim (Bool-cases (config_length == 6)) [
  | inr n ↦ (λ e. inl (λ c. ground (arith, n, c)), λ e. rw n refl)
  | inl y ↦
      let six : config_length ≡ 6 = (==_iff config_length 6).0 y in
      subst
        (λ n. (init board conf n d w ≡ hangs) ↔ (
          (n ≢ 6)
          ⊎ ((d.has_driver ≡ false) × ((board.begin 915000000 (configure board d w)).1 ≡ false))))
        (sym six) (with_size board conf d w)
]

abbrev has : {W : Type 0} → LoraFields × W → Startup (LoraFields × W) → Bool
has default s = (ready_or default s).0.has_driver

running :
    {W : Type 0} (board : Board W) (conf : LoraConfig) (d d' : LoraFields) (w w' : W)
    → init board conf 6 d w ≡ ready (d', w')
    → d'.has_driver ≡ true
running board conf d d' w w' e = elim (Bool-cases d.has_driver) [
  | inl h ↦ ap (has (d', w')) (sym e ∙ init_running board conf d w h) ∙ h
  | inr h ↦ elim (Bool-cases (board.begin 915000000 (configure board d w)).1) [
    | inl b ↦ ap (has (d', w')) (sym e ∙ init_new board conf d w true h b)
    | inr b ↦ absurd (ground (arith, ap is_ready (sym e ∙ init_new board conf d w false h b)))
  ]
]

-- Once `init` has set a radio up, a further `init` never hangs: it takes the new configuration over
-- and leaves the radio as it is.
pub init_again :
    {W : Type 0} (board : Board W) (conf conf' : LoraConfig) (d d' : LoraFields) (w w' : W)
    → init board conf 6 d w ≡ ready (d', w')
    → init board conf' 6 d' w' ≡ ready (configured conf' d', board.random_seed w')
init_again board conf conf' d d' w w' e =
    init_running board conf' d' w' (running board conf d d' w w' e)

-- `init` sets the radio's parameters before `begin`. Where `begin` resets the radio, as it does
-- when a reset pin is given, they are lost: `init` does what it would do with the pins alone.
pub settings_lost :
    {W : Type 0} (board : Board W) (d : LoraFields) (w : W)
    → ((f n : ℕ) (r : W) → board.begin f (board.set_frequency n r) ≡ board.begin f r)
    → ((f n : ℕ) (r : W) → board.begin f (board.set_spreading_factor n r) ≡ board.begin f r)
    → ((f n : ℕ) (r : W) → board.begin f (board.set_signal_bandwidth n r) ≡ board.begin f r)
    → ((f n : ℕ) (r : W) → board.begin f (board.set_preamble_length n r) ≡ board.begin f r)
    → ((f n : ℕ) (r : W) → board.begin f (board.set_coding_rate4 n r) ≡ board.begin f r)
    → ((f : ℕ) (r : W) → board.begin f (board.enable_crc r) ≡ board.begin f r)
    → start_driver board d w ≡ (
        let r = board.set_radio_pins d.cs_pin d.reset_pin d.interrupt_pin (board.new_radio w) in
        let (w', ok) = board.begin 915000000 r in
        if not ok then hangs else ready (record d { has_driver = true }, w'))
unfolding start_driver configure
settings_lost board d w f s b p c e = rw (e, c, p, b, s, f) refl
