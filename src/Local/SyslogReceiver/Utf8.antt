-- ===== src/Local/SyslogReceiver/Utf8.antt =====
-- `data.decode("utf-8", errors="replace")` of local/syslog_receiver.py. Each longest part of the bytes
-- that begins a character and cannot be gone on with, and each byte that begins none, becomes U+FFFD.
pub mod RoundTrip
use wan_router_notifications.Common.{
  ℕ, ◌+◌, ◌-◌, ◌*◌, Bool, ◌&&◌, ◌||◌, List, [], ◌∷◌, ◌++◌, ltb, leb, ◌==◌, if◌then◌else◌,
}
use wan_router_notifications.Common.Text.{Text}

-- Between two characters; or within one, with the number that the bytes so far stand for, how many
-- are to come, and the bounds of the next.
pub data Pending : Type 0 where
  between_two : Pending
  within : ℕ → ℕ → ℕ → ℕ → Pending

abbrev pub in_range : ℕ → ℕ → ℕ → Bool
in_range a b c = leb a c && leb c b

abbrev pub replacement : ℕ
replacement = 65533

-- what a byte that begins a character gives at once, and what is then pending
pub first_byte : ℕ → Text × Pending
first_byte b =
    if ltb b 128
    then (b ∷ [], between_two)
    else if in_range 194 223 b
    then ([], within (b - 192) 1 128 191)
    else if b == 224
    then ([], within 0 2 160 191)
    else if b == 237
    then ([], within 13 2 128 159)
    else if in_range 225 239 b
    then ([], within (b - 224) 2 128 191)
    else if b == 240
    then ([], within 0 3 144 191)
    else if in_range 241 243 b
    then ([], within (b - 240) 3 128 191)
    else if b == 244
    then ([], within 4 3 128 143)
    else (replacement ∷ [], between_two)

-- a byte that goes on with a character
abbrev pub one_more : ℕ → ℕ → Text × Pending
one_more value to_come =
    if to_come == 1 then (value ∷ [], between_two) else ([], within value (to_come - 1) 128 191)

pub next_byte : Pending → ℕ → Text × Pending
unfolding first_byte
next_byte between_two b = first_byte b
next_byte (within value to_come low high) b =
    let (t, p) = first_byte b in
    if in_range low high b then one_more (value * 64 + (b - 128)) to_come else (replacement ∷ t, p)

pub decode_from : Pending → List ℕ → Text
unfolding next_byte
decode_from between_two [] = []
decode_from (within value to_come low high) [] = replacement ∷ []
decode_from p (b ∷ bytes) = let (t, q) = next_byte p b in t ++ decode_from q bytes

unfoldable pub decode : List ℕ → Text
unfolding decode_from
decode bytes = decode_from between_two bytes
