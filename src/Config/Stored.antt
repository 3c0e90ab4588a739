-- ===== src/Config/Stored.antt =====
-- What is saved is what a load restores.
use qiran_firmware.Base.{ℕ, zero, suc, refl, sym, ap, ap₂, inl, true, some, List, arith}
use qiran_firmware.Base.{dec_lt, ℕ_discrete, lt→ltb, u8, shr, update_self, ◌+◌, ◌-◌, ◌≤◌, ◌<◌}
use qiran_firmware.Base.{◌≡◌, ◌∙◌, ◌∷◌}
use qiran_firmware.Status.{Status, ok}
use qiran_firmware.Services.{Services}
use qiran_firmware.Crc.{crc32}
use qiran_firmware.Config
use qiran_firmware.Config.{
  Config, Storage, Image, image_of, image_words, image_crc, image_status, image_to_save,
  image_unsealed, save, live_crc, take_value, take_values, take_image, read_params, load, load_from,
  settle_params, read_calibration,
}
use qiran_firmware.Config.Curve.{words_bytes}
use qiran_firmware.Config.Table.{param_count, in_range}
use qiran_firmware.Config.Valid.{IsSound, take_values_other}

-- The words that the checksum of an image covers.
abbrev covered : ℕ
covered = 4 + param_count

words_bytes_same :
    (n i : ℕ) (v w : ℕ → ℕ)
    → ((j : ℕ) → i ≤ j → j < i + n → v j ≡ w j)
    → words_bytes n i v ≡ words_bytes n i w
unfolding words_bytes
words_bytes_same zero i v w h = refl
words_bytes_same (suc n) i v w h =
    ap₂ (λ (a : ℕ) (rest : List ℕ). u8 a ∷ u8 (shr a 8) ∷ u8 (shr a 16) ∷ u8 (shr a 24) ∷ rest)
      (h i (omega arith) (omega arith))
      (words_bytes_same n (i + 1) v w (λ j p q. h j (omega arith) (omega arith)))

-- The words of an image that is taken from words are those words.
image_words_of : (w : ℕ → ℕ) (i : ℕ) → i ≤ covered → image_words (image_of w) i ≡ w i
unfolding image_words image_of
image_words_of w i h = elim (ℕ_discrete i 0) [
  | yes e ↦ rw e refl
  | no n0 ↦ elim (ℕ_discrete i 1) [
    | yes e ↦ rw e refl
    | no n1 ↦ elim (ℕ_discrete i 2) [
      | yes e ↦ rw e refl
      | no n2 ↦ elim (ℕ_discrete i 3) [
        | yes e ↦ rw e refl
        | no n3 ↦ elim (dec_lt i covered) [
          | yes lt ↦ let back : 4 + (i - 4) ≡ i = omega arith in ground (arith, ap w back)
          | no ge ↦ let last : i ≡ covered = omega arith in rw last refl
        ]
      ]
    ]
  ]
]

module _ {W : Type 0} (c : Config W) where
  sealed_words :
      (i : ℕ) → i < covered → image_words (image_to_save c) i ≡ image_words (image_unsealed c) i
  unfolding image_words image_to_save
  sealed_words i h = ground (arith, lt→ltb i covered h)

  sealed_crc : image_words (image_to_save c) covered ≡ image_crc (image_unsealed c)
  unfolding image_words image_to_save
  sealed_crc = refl

  -- What was read agrees with what was saved.
  abbrev pub IsSaved : (ℕ → ℕ) → Type 0
  IsSaved w = (i : ℕ) → i ≤ covered → w i ≡ image_words (image_to_save c) i

  module _ (w : ℕ → ℕ) (h : IsSaved w) where
    read_magic : (image_of w).magic ≡ Config.config_magic
    unfolding image_of image_words image_to_save image_unsealed
    read_magic = h 0 (omega arith)

    read_version : (image_of w).version ≡ Config.config_version
    unfolding image_of image_words image_to_save image_unsealed
    read_version = h 1 (omega arith)

    pub read_count : (image_of w).count ≡ param_count
    unfolding image_of image_words image_to_save image_unsealed
    read_count = h 2 (omega arith)

    pub read_value : (i : ℕ) → i < param_count → (image_of w).value i ≡ c.value i
    unfolding image_of image_words image_to_save image_unsealed
    read_value i lt = h (4 + i) (omega arith) ∙ ground (arith, ap c.value (add_sub i))
      where
        add_sub : (i : ℕ) → 4 + i - 4 ≡ i
        add_sub i = omega arith

    read_crc : image_crc (image_of w) ≡ (image_of w).crc
    unfolding image_crc image_of
    read_crc =
        ap crc32 (
          words_bytes_same covered 0 (image_words (image_of w)) (image_words (image_unsealed c))
            (λ j p q. image_words_of w j (omega arith) ∙ h j (omega arith) ∙ sealed_words j q))
        ∙ sym (h covered (omega arith) ∙ sealed_crc)

    pub saved_status : image_status (image_of w) ≡ ok
    unfolding image_status
    saved_status = ground (arith, read_magic, read_version, read_crc)

module _ {W : Type 0} where
  take_value_legal :
      (i stored k : ℕ) (c : Config W) (s : Services)
      → in_range i stored ≡ true
      → ((take_value i stored k c s).0 ≡ k) × ((take_value i stored k c s).1.value i ≡ stored)
  unfolding take_value
  take_value_legal i stored k c s h = rw h (refl, update_self c.value i stored)

  -- Stored values that are all inside their limits are all taken.
  take_values_legal :
      (n i : ℕ) (stored : ℕ → ℕ) (k : ℕ) (c : Config W) (s : Services)
      → ((j : ℕ) → i ≤ j → j < i + n → in_range j (stored j) ≡ true)
      → let (k', c', s') = take_values n i stored k c s in
        (k' ≡ k) × ((j : ℕ) → i ≤ j → j < i + n → c'.value j ≡ stored j)
  unfolding take_values
  take_values_legal zero i stored k c s h = (refl, λ j p q. absurd (omega arith))
  take_values_legal (suc n) i stored k c s h =
      let (k1, c1, s1) = take_value i (stored i) k c s in
      let (kept, mine) = take_value_legal i (stored i) k c s (h i (omega arith) (omega arith)) in
      let (count, rest) =
        take_values_legal n (i + 1) stored k1 c1 s1 (λ j p q. h j (omega arith) (omega arith)) in
      (
        count ∙ kept,
        λ j p q. elim (ℕ_discrete i j) [
          | yes e ↦
              take_values_other n (i + 1) stored k1 c1 s1 j (inl (omega arith))
              ∙ ap c1.value (sym e)
              ∙ mine
              ∙ ap stored e
          | no ne ↦ rest j (omega arith) (omega arith)
        ],
      )

  take_image_legal :
      (m : Image) (c : Config W) (s : Services)
      → m.count ≡ param_count
      → ((j : ℕ) → j < param_count → in_range j (m.value j) ≡ true)
      → ((take_image m c s).0 ≡ ok)
        × ((j : ℕ) → j < param_count → (take_image m c s).1.value j ≡ m.value j)
  unfolding take_image
  take_image_legal m c s full h =
      let (count, same) =
        take_values_legal param_count 0 m.value 0 c s (λ j p q. h j (omega arith)) in
      (ground (arith, full, count), λ j lt. rw full (same j (omega arith) (omega arith)))

  read_params_legal :
      (st : Storage W) (c : Config W) (w : W) (s : Services)
      → let (got, words, w') = st.read Config.offset_params Config.image_bytes w in
        got ≡ ok
        → image_status (image_of words) ≡ ok
        → ((read_params st c w s).0 ≡ (take_image (image_of words) c s).0)
          × ((read_params st c w s).1 ≡ (take_image (image_of words) c s).1)
  unfolding read_params
  read_params_legal st c w s got good = (ground (arith, got, good), ground (arith, got, good))

  load_legal :
      (st : Storage W) (d : Config W) (w : W) (s : Services)
      → d.storage ≡ some st
      → (read_params st d w s).0 ≡ ok
      → ((load d w s).0 ≡ ok) × ((load d w s).1.value ≡ (read_params st d w s).1.value)
  unfolding load load_from settle_params read_calibration
  load_legal st d w s set good = (ground (arith, set, good), ground (arith, set, good))

  -- A storage that keeps its first block: what was written with success is read back.
  abbrev pub Keeps : Storage W → Type 0
  Keeps st =
      (words : ℕ → ℕ) (w : W)
      → let (r, w1) = st.write Config.offset_params words Config.image_bytes w in
        r ≡ ok
        → let (r', back, w2) = st.read Config.offset_params Config.image_bytes w1 in
          (r' ≡ ok) × ((i : ℕ) → i ≤ covered → back i ≡ words i)

  restored :
      (c d : Config W) (st : Storage W) (w : W) (s : Services)
      → (st.read Config.offset_params Config.image_bytes w).0 ≡ ok
      → IsSaved c (st.read Config.offset_params Config.image_bytes w).1
      → IsSound c
      → d.storage ≡ some st
      → let (r, d', w', s') = load d w s in
        (r ≡ ok) × ((i : ℕ) → i < param_count → d'.value i ≡ c.value i)
  restored c d st w s got back v ds =
      let words = (st.read Config.offset_params Config.image_bytes w).1 in
      let (r, e) = read_params_legal st d w s got (saved_status c words back) in
      let (legal, values) =
        take_image_legal (image_of words) d s (read_count c words back)
          (λ j lt. ap (in_range j) (read_value c words back j lt) ∙ v.in_limits j lt) in
      let (r', e') = load_legal st d w s ds (r ∙ legal) in
      (
        r',
        λ i lt.
            ap (λ (f : ℕ → ℕ). f i) (e' ∙ ap (λ (k : Config W). k.value) e)
            ∙ values i lt
            ∙ read_value c words back i lt,
      )

  save_writes :
      (c : Config W) (st : Storage W) (w : W)
      → c.storage ≡ some st
      → save c w
        ≡ st.write Config.offset_params (image_words (image_to_save c)) Config.image_bytes w
  unfolding save
  save_writes c st w h = ground (arith, h)

  -- What one store saves with success to a storage that keeps it, a load restores, in this store
  -- or in another one on the same storage: it answers OK and every parameter has the value that
  -- was saved. The values saved are inside their limits, as they always are.
  pub save-load :
      (c d : Config W) (st : Storage W) (w : W) (s : Services)
      → Keeps st
      → IsSound c
      → c.storage ≡ some st
      → d.storage ≡ some st
      → (save c w).0 ≡ ok
      → let (r, d', w', s') = load d (save c w).1 s in
        (r ≡ ok) × ((i : ℕ) → i < param_count → d'.value i ≡ c.value i)
  save-load c d st w s keeps v cs ds saved =
      let words = image_words (image_to_save c) in
      let e = save_writes c st w cs in
      let (got, back) = keeps words w (sym (ap (λ (p : Status × W). p.0) e) ∙ saved) in
      rw e (
        restored c d st (st.write Config.offset_params words Config.image_bytes w).1 s got back v
          ds)
