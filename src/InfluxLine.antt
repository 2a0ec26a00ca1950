-- ===== src/InfluxLine.antt =====
-- linien-gateway/app/influx_writer.py: the escaping of a measurement's name and of a tag. A text is the
-- list of its code points.
pub mod RoundTrip
use linien_multi_device.Prelude.{ℕ, Bool, true, false, List, [], ◌∷◌, ◌==◌, if◌then◌else◌}

abbrev pub backslash : ℕ
backslash = 92

abbrev pub comma : ℕ
comma = 44

abbrev pub space : ℕ
space = 32

abbrev pub equals_sign : ℕ
equals_sign = 61

-- `value.replace(c, "\\" + c)`.
pub escape_char : ℕ → List ℕ → List ℕ
escape_char c [] = []
escape_char c (x ∷ xs) =
    let rest = escape_char c xs in if x == c then backslash ∷ c ∷ rest else x ∷ rest

unfoldable pub escape_measurement : List ℕ → List ℕ
unfolding escape_char
escape_measurement value = escape_char space (escape_char comma (escape_char backslash value))

unfoldable pub escape_tag : List ℕ → List ℕ
unfolding escape_char
escape_tag value =
    escape_char equals_sign (escape_char space (escape_char comma (escape_char backslash value)))
