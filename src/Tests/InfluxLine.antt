-- ===== src/Tests/InfluxLine.antt =====
-- Concrete runs of linien-gateway/app/influx_writer.py.
use linien_multi_device.Prelude.{ℕ, ◌≡◌, refl, false, List, [], ◌∷◌, ◌++◌}
use linien_multi_device.InfluxLine.{escape_measurement, escape_tag}
use linien_multi_device.InfluxLine.RoundTrip.{read_tag, escape_tag-read}

-- `a, b=\`
abbrev tag_text : List ℕ
tag_text = 97 ∷ 44 ∷ 32 ∷ 98 ∷ 61 ∷ 92 ∷ []

-- `=1`
abbrev after_tag : List ℕ
after_tag = 61 ∷ 49 ∷ []

escaped_text : escape_tag tag_text ≡ 97 ∷ 92 ∷ 44 ∷ 92 ∷ 32 ∷ 98 ∷ 92 ∷ 61 ∷ 92 ∷ 92 ∷ []
unfolding escape_tag
escaped_text = refl

escaped_name : escape_measurement tag_text ≡ 97 ∷ 92 ∷ 44 ∷ 92 ∷ 32 ∷ 98 ∷ 61 ∷ 92 ∷ 92 ∷ []
unfolding escape_measurement
escaped_name = refl

escape_tag-read_example : read_tag false (escape_tag tag_text ++ after_tag) ≡ (tag_text, after_tag)
escape_tag-read_example = escape_tag-read tag_text after_tag refl
