-- ===== src/Go/Json/Strings.antt =====
-- String tokens: the text of the escapes, `unquote` of encoding/json, and the encoder's `appendString`.
use surfacelock.Prelude.{
  ℕ, zero, suc, ◌+◌, ◌-◌, ◌*◌, ◌/◌, ◌%◌, ◌≡◌, refl, Bool, ◌&&◌, ◌||◌, Option, none, some, [], ◌∷◌,
  ◌++◌, ltb, ◌==◌, within, if◌then◌else◌, take, drop,
}
use surfacelock.Prelude.Bytes.{Bytes, codes, eq_bytes}
use surfacelock.Go.Utf8.{width, encode_rune}

-- A hexadecimal digit, as `strconv.ParseUint(_, 16, 32)` and the scanner read it.
unfoldable pub hex_digit : ℕ → Option ℕ
hex_digit c =
    if within b'0' b'9' c
    then some (c - b'0')
    else if within b'a' b'f' c
    then some (c - b'a' + 10)
    else if within b'A' b'F' c
    then some (c - b'A' + 10)
    else none

abbrev shift_in : Option ℕ → Option ℕ → Option ℕ
shift_in (some n) (some d) = some (n * 16 + d)
shift_in _ _ = none

-- The value of four hexadecimal digits at the head.
unfoldable pub hex4 : Bytes → Option ℕ
unfolding hex_digit
hex4 (a ∷ b ∷ c ∷ d ∷ s) =
    shift_in (shift_in (shift_in (hex_digit a) (hex_digit b)) (hex_digit c)) (hex_digit d)
hex4 _ = none

abbrev pub is_high : ℕ → Bool
is_high = within 0xD800 0xDBFF

abbrev pub is_low : ℕ → Bool
is_low = within 0xDC00 0xDFFF

-- The byte that a one-letter escape stands for.
unfoldable pub escaped : ℕ → Option ℕ
escaped c =
    if c == b'"' || (c == 0x5C || c == b'/')
    then some c
    else if c == b'b'
    then some 8
    else if c == b'f'
    then some 12
    else if c == b'n'
    then some 10
    else if c == b'r'
    then some 13
    else if c == b't'
    then some 9
    else none

abbrev replacement : Bytes
replacement = 0xEF ∷ 0xBF ∷ 0xBD ∷ []

-- `\u` and a low half directly behind a high one.
low_behind : Bytes → Option ℕ
unfolding hex4
low_behind (b ∷ u ∷ s) =
    if b == 0x5C && u == b'u'
    then elim (hex4 s) [ none ↦ none | some r ↦ if is_low r then some r else none ]
    else none
low_behind _ = none

-- What stands behind a backslash, up to a code unit: the text decoded and the bytes taken.
unit : ℕ → Bytes → Bytes × ℕ
unfolding low_behind encode_rune
unit r s =
    if is_high r
    then elim (low_behind s) [
      | none ↦ (replacement, 5)
      | some lo ↦ (encode_rune (0x10000 + (r - 0xD800) * 1024 + (lo - 0xDC00)), 11)
    ]
    else if is_low r
    then (replacement, 5)
    else (encode_rune r, 5)

escape : Bytes → Bytes × ℕ
unfolding hex4 unit escaped
escape [] = ([], 0)
escape (c ∷ s) =
    if c == b'u'
    then elim (hex4 s) [ none ↦ ([], 1) | some r ↦ unit r (drop 4 s) ]
    else elim (escaped c) [ none ↦ ([], 1) | some b ↦ (b ∷ [], 1) ]

-- The piece at the head of a token's body: its decoded text and how many bytes follow the first.
piece : ℕ → Bytes → Bytes × ℕ
unfolding escape width
piece a s =
    if a == 0x5C
    then escape s
    else let w = width a s in if w == 0 then (replacement, 0) else (a ∷ take (w - 1) s, w - 1)

unquote_from : ℕ → Bytes → Bytes
unfolding piece
unquote_from skip [] = []
unquote_from (suc skip) (a ∷ s) = unquote_from skip s
unquote_from zero (a ∷ s) = let p = piece a s in p.0 ++ unquote_from p.1 s

-- The text of a string token's body: a lone surrogate and each invalid byte become U+FFFD.
unfoldable pub unquote : Bytes → Bytes
unfolding unquote_from
unquote = unquote_from 0

hex_char : ℕ → ℕ
hex_char d = if ltb d 10 then b'0' + d else b'a' + (d - 10)

-- A byte below 0x80 as the encoder writes it, `escapeHTML` on.
unfoldable pub encode_ascii : ℕ → Bytes
unfolding hex_char
encode_ascii c =
    if c == b'"' || c == 0x5C
    then 0x5C ∷ c ∷ []
    else if c == 8
    then codes "\\b"
    else if c == 12
    then codes "\\f"
    else if c == 10
    then codes "\\n"
    else if c == 13
    then codes "\\r"
    else if c == 9
    then codes "\\t"
    else if ltb c 0x20 || (c == b'<' || (c == b'>' || c == b'&'))
    then codes "\\u00" ++ hex_char (c / 16) ∷ hex_char (c % 16) ∷ []
    else c ∷ []

-- U+2028 and U+2029 are escaped too.
unfoldable pub encode_wide : ℕ → ℕ → Bytes → Bytes
encode_wide w a s =
    let text = a ∷ take (w - 1) s in
    if eq_bytes text (0xE2 ∷ 0x80 ∷ 0xA8 ∷ [])
    then codes "\\u2028"
    else if eq_bytes text (0xE2 ∷ 0x80 ∷ 0xA9 ∷ [])
    then codes "\\u2029"
    else text

quote_from : ℕ → Bytes → Bytes
unfolding width encode_ascii encode_wide eq_bytes
quote_from skip [] = []
quote_from (suc skip) (a ∷ s) = quote_from skip s
quote_from zero (a ∷ s) =
    let w = width a s in
    (if w == 0 then codes "\\ufffd" else if w == 1 then encode_ascii a else encode_wide w a s)
    ++ quote_from (w - 1) s

-- json.Marshal of a string.
unfoldable pub marshal_string : Bytes → Bytes
unfolding quote_from
marshal_string s = b'"' ∷ quote_from 0 s ++ b'"' ∷ []

unquote_runs :
    unquote (codes "a\\u0041\\ud83d\\ude00\\ud83d\\n")
    ≡ codes "aA" ++ 0xF0 ∷ 0x9F ∷ 0x98 ∷ 0x80 ∷ 0xEF ∷ 0xBF ∷ 0xBD ∷ 10 ∷ []
unfolding unquote
unquote_runs = refl

marshal_string_runs : marshal_string (codes "a\"<") ≡ codes "\"a\\\"\\u003c\""
unfolding marshal_string
marshal_string_runs = refl
