-- ===== src/InfluxLine/RoundTrip.antt =====
-- linien-gateway/app/influx_writer.py: an escaped tag and a reader of the line protocol.
use linien_multi_device.Prelude.{
  ℕ, Bool, true, false, ◌||◌, List, [], ◌∷◌, ◌++◌, ◌==◌, ◌≡◌, refl, ap, ◌∙◌, arith, ◌⊎◌, inl, inr,
  if◌then◌else◌, if_intro, append_assoc,
}
use linien_multi_device.InfluxLine.{backslash, comma, space, equals_sign, escape_char, escape_tag}

abbrev pub is_separator : ℕ → Bool
is_separator x = x == comma || x == space || x == equals_sign

abbrev pub add_char : ℕ → List ℕ × List ℕ → List ℕ × List ℕ
add_char x (tag, rest) = (x ∷ tag, rest)

-- Reads up to the first separator that no backslash precedes; the flag is set behind a backslash.
unfoldable pub read_tag : Bool → List ℕ → List ℕ × List ℕ
read_tag escaped [] = ([], [])
read_tag true (x ∷ xs) = add_char x (read_tag false xs)
read_tag false (x ∷ xs) =
    let escaped = read_tag true xs in
    let plain = add_char x (read_tag false xs) in
    if x == backslash then escaped else if is_separator x then ([], x ∷ xs) else plain

-- Nothing follows, or a separator does.
abbrev pub IsEnd : List ℕ → Type 0
IsEnd [] = Unit
IsEnd (x ∷ xs) = is_separator x ≡ true

-- One step of escape_char.
one_step : Bool → ℕ → ℕ → List ℕ → List ℕ
one_step t c x rest = if t then backslash ∷ c ∷ rest else x ∷ rest

one_step-++ : (t : Bool) (c x : ℕ) (l r : List ℕ) → one_step t c x (l ++ r) ≡ one_step t c x l ++ r
unfolding one_step
one_step-++ true c x l r = refl
one_step-++ false c x l r = refl

escape_char-++ :
    (c : ℕ) (a b : List ℕ) → escape_char c (a ++ b) ≡ escape_char c a ++ escape_char c b
unfolding escape_char one_step
escape_char-++ c [] b = refl
escape_char-++ c (x ∷ a) b =
    ap (one_step (x == c) c x) (escape_char-++ c a b)
    ∙ one_step-++ (x == c) c x (escape_char c a) (escape_char c b)

escape_tag-++ : (a b : List ℕ) → escape_tag (a ++ b) ≡ escape_tag a ++ escape_tag b
unfolding escape_tag
escape_tag-++ a b =
    let p = escape_char backslash in
    let q = escape_char comma in
    let r = escape_char space in
    let s = escape_char equals_sign in
    ap (λ l. s (r (q l))) (escape_char-++ backslash a b)
    ∙ ap (λ l. s (r l)) (escape_char-++ comma (p a) (p b))
    ∙ ap s (escape_char-++ space (q (p a)) (q (p b)))
    ∙ escape_char-++ equals_sign (r (q (p a))) (r (q (p b)))

-- What the passes make of one code point.
abbrev Shape : ℕ → List ℕ → Type 0
Shape x l = (l ≡ backslash ∷ x ∷ []) ⊎ ((l ≡ x ∷ []) × ((x == backslash || is_separator x) ≡ false))

eq_of_test : (x c : ℕ) → (x == c) ≡ true → c ≡ x
eq_of_test x c h = ground (arith, h)

escaped_as : (x c : ℕ) → (x == c) ≡ true → backslash ∷ c ∷ [] ≡ backslash ∷ x ∷ []
escaped_as x c h = ap (λ y. backslash ∷ y ∷ []) (eq_of_test x c h)

escape_tag-Shape : (x : ℕ) → Shape x (escape_tag (x ∷ []))
unfolding escape_tag escape_char
escape_tag-Shape x =
    if_intro (λ l. Shape x (escape_char equals_sign (escape_char space (escape_char comma l))))
      (x == backslash) _ _ (λ h. inl (escaped_as x backslash h))
      (λ a.
        if_intro (λ l. Shape x (escape_char equals_sign (escape_char space l))) (x == comma) _ _
          (λ h. inl (escaped_as x comma h))
          (λ b.
            if_intro (λ l. Shape x (escape_char equals_sign l)) (x == space) _ _
              (λ h. inl (escaped_as x space h))
              (λ c.
                if_intro (Shape x) (x == equals_sign) _ _ (λ h. inl (escaped_as x equals_sign h))
                  (λ d. inr (refl, ground (arith, a, b, c, d))))))

abbrev Read : Type 0
Read = List ℕ × List ℕ

pick_last :
    (t u : Bool) (a b c : Read) → (t || u) ≡ false → (if t then a else if u then b else c) ≡ c
pick_last true u a b c h = cc
pick_last false true a b c h = cc
pick_last false false a b c h = refl

pick_middle :
    (t u : Bool) (a b c : Read) → t ≡ false → u ≡ true → (if t then a else if u then b else c) ≡ b
pick_middle true u a b c h k = cc
pick_middle false true a b c h k = refl
pick_middle false false a b c h k = cc

read_plain :
    (x : ℕ) (t : List ℕ)
    → (x == backslash || is_separator x) ≡ false
    → read_tag false (x ∷ t) ≡ add_char x (read_tag false t)
unfolding read_tag
read_plain x t h =
    pick_last (x == backslash) (is_separator x) (read_tag true t) ([], x ∷ t)
      (add_char x (read_tag false t)) h

read_one :
    (x : ℕ) (l t : List ℕ) → Shape x l → read_tag false (l ++ t) ≡ add_char x (read_tag false t)
unfolding read_tag
read_one x l t (inl e) = ap (λ k. read_tag false (k ++ t)) e
read_one x l t (inr (e, h)) = ap (λ k. read_tag false (k ++ t)) e ∙ read_plain x t h

read_end : (rest : List ℕ) → IsEnd rest → read_tag false rest ≡ ([], rest)
unfolding read_tag
read_end [] h = refl
read_end (x ∷ xs) h =
    pick_middle (x == backslash) (is_separator x) (read_tag true xs) ([], x ∷ xs)
      (add_char x (read_tag false xs)) (ground (arith, h)) h

-- Every text and whatever comes after it, as long as that is nothing or begins with a comma, a space or an
-- equals sign: a reader that takes what stands behind a backslash as it is and stops at the first other
-- separator gets the text back from its escaped form, and leaves what comes after.
pub escape_tag-read :
    (value rest : List ℕ) → IsEnd rest → read_tag false (escape_tag value ++ rest) ≡ (value, rest)
unfolding escape_tag escape_char
escape_tag-read [] rest h = read_end rest h
escape_tag-read (x ∷ value) rest h =
    ap (λ l. read_tag false (l ++ rest)) (escape_tag-++ (x ∷ []) value)
    ∙ ap (read_tag false) (append_assoc (escape_tag (x ∷ [])) (escape_tag value) rest)
    ∙ read_one x (escape_tag (x ∷ [])) (escape_tag value ++ rest) (escape_tag-Shape x)
    ∙ ap (add_char x) (escape_tag-read value rest h)
