-- ===== src/Local/SyslogReceiver/Utf8/RoundTrip.antt =====
-- The decoder of Local/SyslogReceiver/Utf8 on encoded texts.
use wan_router_notifications.Common.{
  ℕ, ◌+◌, ◌*◌, ◌/◌, ◌%◌, ◌≤◌, ◌<◌, ◌≡◌, ◌⊎◌, refl, ap, ◌∙◌, List, [], ◌∷◌, ◌++◌, arith, ltb, ◌==◌,
  Bool-cases, inl, inr, if◌then◌else◌,
}
use wan_router_notifications.Common.Text.{Text}
use wan_router_notifications.Local.SyslogReceiver.Utf8.{
  Pending, between_two, within, first_byte, next_byte, decode_from, decode,
}

-- The UTF-8 encoding of a character, and of a text.
abbrev pub encode_character : ℕ → List ℕ
encode_character c =
    if ltb c 128
    then c ∷ []
    else if ltb c 2048
    then (192 + c / 64) ∷ (128 + c % 64) ∷ []
    else if ltb c 65536
    then (224 + c / 4096) ∷ (128 + c / 64 % 64) ∷ (128 + c % 64) ∷ []
    else (240 + c / 262144) ∷ (128 + c / 4096 % 64) ∷ (128 + c / 64 % 64) ∷ (128 + c % 64) ∷ []

abbrev pub encode : Text → List ℕ
encode [] = []
encode (c ∷ s) = encode_character c ++ encode s

-- Every character is one of Unicode, and no surrogate.
abbrev pub AllScalar : Text → Type 0
AllScalar [] = Unit {0}
AllScalar (c ∷ s) = (c < 55296 ⊎ ((57344 ≤ c) × (c < 1114112))) × AllScalar s

first-two : (x : ℕ) → 2 ≤ x → x ≤ 31 → first_byte (192 + x) ≡ ([], within x 1 128 191)
unfolding first_byte
first-two x h1 h2 = ground arith

last-more :
    (v y low high : ℕ)
    → low ≤ 128 + y
    → 128 + y ≤ high
    → next_byte (within v 1 low high) (128 + y) ≡ ((v * 64 + y) ∷ [], between_two)
unfolding next_byte
last-more v y low high h1 h2 = ground arith

next-more :
    (v n y low high : ℕ)
    → low ≤ 128 + y
    → 128 + y ≤ high
    → next_byte (within v (n + 2) low high) (128 + y) ≡ ([], within (v * 64 + y) (n + 1) 128 191)
unfolding next_byte
next-more v n y low high h1 h2 = ground arith

first-three :
    (x y : ℕ)
    → x ≤ 15
    → y < 64
    → 32 ≤ x * 64 + y
    → (x * 64 + y < 864) ⊎ (896 ≤ x * 64 + y)
    → (low : ℕ) × ((high : ℕ) × ((first_byte (224 + x) ≡ ([], within x 2 low high))
          × (low ≤ 128 + y)
          × (128 + y ≤ high)))
unfolding first_byte
first-three x y h1 h2 h3 h4 = elim (Bool-cases (x == 0)) [
  | inl e ↦ (160, (191, (ground arith, ground arith, omega arith)))
  | inr e ↦ elim (Bool-cases (x == 13)) [
    | inl f ↦ (128, (159, (ground arith, omega arith, ground arith)))
    | inr f ↦ (128, (191, (ground arith, omega arith, omega arith)))
  ]
]

first-four :
    (x y : ℕ)
    → y < 64
    → 16 ≤ x * 64 + y
    → x * 64 + y < 272
    → (low : ℕ) × ((high : ℕ) × ((first_byte (240 + x) ≡ ([], within x 3 low high))
          × (low ≤ 128 + y)
          × (128 + y ≤ high)))
unfolding first_byte
first-four x y h2 h3 h4 = elim (Bool-cases (x == 0)) [
  | inl e ↦ (144, (191, (ground arith, ground arith, omega arith)))
  | inr e ↦ elim (Bool-cases (x == 4)) [
    | inl f ↦ (128, (143, (ground arith, omega arith, ground arith)))
    | inr f ↦ (128, (191, (ground arith, omega arith, omega arith)))
  ]
]

decoded :
    (p q : Pending) (b : ℕ) (t : Text) (bytes : List ℕ)
    → next_byte p b ≡ (t, q)
    → decode_from p (b ∷ bytes) ≡ t ++ decode_from q bytes
unfolding decode_from
decoded between_two q b t bytes e = rw e refl
decoded (within v n low high) q b t bytes e = rw e refl

begun :
    (q : Pending) (b : ℕ) (t : Text) (bytes : List ℕ)
    → first_byte b ≡ (t, q)
    → decode_from between_two (b ∷ bytes) ≡ t ++ decode_from q bytes
unfolding next_byte
begun q b t bytes e = decoded between_two q b t bytes e

-- the last byte of a character, and the two and three last ones
one_left :
    (v x low high : ℕ) (rest : List ℕ)
    → low ≤ 128 + x
    → 128 + x ≤ high
    → decode_from (within v 1 low high) ((128 + x) ∷ rest)
      ≡ (v * 64 + x) ∷ decode_from between_two rest
one_left v x low high rest h1 h2 =
    decoded (within v 1 low high) between_two (128 + x) ((v * 64 + x) ∷ []) rest
      (last-more v x low high h1 h2)

two_left :
    (v x y low high : ℕ) (rest : List ℕ)
    → low ≤ 128 + x
    → 128 + x ≤ high
    → y < 64
    → decode_from (within v 2 low high) ((128 + x) ∷ (128 + y) ∷ rest)
      ≡ ((v * 64 + x) * 64 + y) ∷ decode_from between_two rest
two_left v x y low high rest h1 h2 h3 =
    decoded (within v 2 low high) (within (v * 64 + x) 1 128 191) (128 + x) [] ((128 + y) ∷ rest)
      (next-more v 0 x low high h1 h2)
    ∙ one_left (v * 64 + x) y 128 191 rest (omega arith) (omega arith)

three_left :
    (v x y z low high : ℕ) (rest : List ℕ)
    → low ≤ 128 + x
    → 128 + x ≤ high
    → y < 64
    → z < 64
    → decode_from (within v 3 low high) ((128 + x) ∷ (128 + y) ∷ (128 + z) ∷ rest)
      ≡ (((v * 64 + x) * 64 + y) * 64 + z) ∷ decode_from between_two rest
three_left v x y z low high rest h1 h2 h3 h4 =
    decoded (within v 3 low high) (within (v * 64 + x) 2 128 191) (128 + x) []
      ((128 + y) ∷ (128 + z) ∷ rest) (next-more v 1 x low high h1 h2)
    ∙ two_left (v * 64 + x) y z 128 191 rest (omega arith) (omega arith) h4

three_bytes :
    (c : ℕ) (rest : List ℕ)
    → 2048 ≤ c
    → c < 65536
    → (c < 55296) ⊎ (57344 ≤ c)
    → decode_from between_two ((224 + c / 4096) ∷ (128 + c / 64 % 64) ∷ (128 + c % 64) ∷ rest)
      ≡ c ∷ decode_from between_two rest
three_bytes c rest h1 h2 h3 =
    let x = c / 4096 in
    let y = c / 64 % 64 in
    let z = c % 64 in
    let sum : (x * 64 + y) * 64 + z ≡ c = omega arith in
    let room : (x * 64 + y < 864) ⊎ (896 ≤ x * 64 + y) = elim h3 [
      | inl h ↦ inl (omega arith)
      | inr h ↦ inr (omega arith)
    ] in
    let (low, (high, (e, l, h))) = first-three x y (omega arith) (omega arith) (omega arith) room in
    begun (within x 2 low high) (224 + x) [] ((128 + y) ∷ (128 + z) ∷ rest) e
    ∙ (two_left x y z low high rest l h (omega arith)
        ∙ ap (λ v. v ∷ decode_from between_two rest) sum)

four_bytes :
    (c : ℕ) (rest : List ℕ)
    → 65536 ≤ c
    → c < 1114112
    → decode_from between_two
        ((240 + c / 262144) ∷ (128 + c / 4096 % 64) ∷ (128 + c / 64 % 64) ∷ (128 + c % 64) ∷ rest)
      ≡ c ∷ decode_from between_two rest
four_bytes c rest h1 h2 =
    let w = c / 262144 in
    let x = c / 4096 % 64 in
    let y = c / 64 % 64 in
    let z = c % 64 in
    let sum : ((w * 64 + x) * 64 + y) * 64 + z ≡ c = omega arith in
    let (low, (high, (e, l, h))) = first-four w x (omega arith) (omega arith) (omega arith) in
    begun (within w 3 low high) (240 + w) [] ((128 + x) ∷ (128 + y) ∷ (128 + z) ∷ rest) e
    ∙ (three_left w x y z low high rest l h (omega arith) (omega arith)
        ∙ ap (λ v. v ∷ decode_from between_two rest) sum)

decode_from-character :
    (c : ℕ) (rest : List ℕ)
    → (c < 55296) ⊎ ((57344 ≤ c) × (c < 1114112))
    → decode_from between_two (encode_character c ++ rest) ≡ c ∷ decode_from between_two rest
unfolding first_byte
decode_from-character c rest scalar =
    let low_or_high : (c < 55296) ⊎ (57344 ≤ c) = elim scalar [ inl h ↦ inl h | inr h ↦ inr h.0 ] in
    elim (Bool-cases (ltb c 128)) [
      | inl h1 ↦ rw h1 (begun between_two c (c ∷ []) rest (ground arith))
      | inr h1 ↦ elim (Bool-cases (ltb c 2048)) [
        | inl h2 ↦
            let sum : c / 64 * 64 + c % 64 ≡ c = omega arith in
            rw (h1, h2)
              (begun (within (c / 64) 1 128 191) (192 + c / 64) [] ((128 + c % 64) ∷ rest)
                  (first-two (c / 64) (ground arith) (ground arith))
                ∙ (one_left (c / 64) (c % 64) 128 191 rest (omega arith) (omega arith)
                    ∙ ap (λ z. z ∷ decode_from between_two rest) sum))
        | inr h2 ↦ elim (Bool-cases (ltb c 65536)) [
          | inl h3 ↦ rw (h1, h2, h3) (three_bytes c rest (ground arith) (ground arith) low_or_high)
          | inr h3 ↦ rw (h1, h2, h3) (four_bytes c rest (ground arith) (omega arith))
        ]
      ]
    ]

decode_from-nothing : decode_from between_two [] ≡ []
unfolding decode_from
decode_from-nothing = refl

-- Where every character is one of Unicode and no surrogate: the text's encoding is decoded to it.
pub decode-encode : (s : Text) → AllScalar s → decode (encode s) ≡ s
unfolding decode
decode-encode [] h = decode_from-nothing
decode-encode (c ∷ s) h =
    decode_from-character c (encode s) h.0 ∙ ap (λ t. c ∷ t) (decode-encode s h.1)
