-- ===== src/StoryEngine/Mail/Pixel.antt =====
-- routes/story_engine.go: where `injectOpenPixel` puts the pixel.
use sentanyl_core_readonly.Prelude.{
  ℕ, suc, true, false, if◌then◌else◌, if_rule, Option, some, none, [], ◌∷◌, ◌++◌, Str, bytes, take,
  drop, ◌≡◌, refl, ap, arith, has_prefix, is_nil,
}
use sentanyl_core_readonly.StoryEngine.Click.{contains}
use sentanyl_core_readonly.StoryEngine.Mail.{inject_open_pixel, last_index, open_pixel}

-- The string is `before` and `found`, where the last occurrence of the pattern begins.
pub record IsLastAt (s pattern before found : Str) : Type 0 where
  pub whole : s ≡ before ++ found
  pub begins : has_prefix found pattern ≡ true
  pub is_last : contains (drop 1 found) pattern ≡ false

abbrev LastIndex : Str → Str → Option ℕ → Type 0
LastIndex s pattern none = contains s pattern ≡ false
LastIndex s pattern (some i) = IsLastAt s pattern (take i s) (drop i s)

last_index-LastIndex :
    (s pattern : Str) → is_nil pattern ≡ false → LastIndex s pattern (last_index s pattern)
unfolding last_index contains has_prefix
last_index-LastIndex s [] n = absurd (cc)
last_index-LastIndex [] (p ∷ ps) n = refl
last_index-LastIndex (c ∷ cs) (p ∷ ps) n =
    behind (last_index cs (p ∷ ps)) (last_index-LastIndex cs (p ∷ ps) n)
  where
    behind :
        (o : Option ℕ)
        → LastIndex cs (p ∷ ps) o
        → LastIndex (c ∷ cs) (p ∷ ps) (elim o as (λ _. Option ℕ) [
          | some i ↦ some (suc i)
          | none ↦ if has_prefix (c ∷ cs) (p ∷ ps) then some 0 else none
        ])
    behind (some i) h = record {
      whole = ap (◌∷◌ c) h.whole;
      begins = h.begins;
      is_last = h.is_last;
    }
    behind none h =
        if_rule (LastIndex (c ∷ cs) (p ∷ ps)) (has_prefix (c ∷ cs) (p ∷ ps))
          (λ b. record { whole = refl; begins = b; is_last = h }) (λ b. ground arith)

-- What is made of the body of a message: the pixel is before the last `</body>`, or behind
-- everything where there is none.
pub data Injected (pixel html : Str) : Str → Type 0 where
  before_body :
      (before found : Str)
      → IsLastAt html (bytes "</body>") before found
      → Injected pixel html (before ++ (pixel ++ found))
  at_end : contains html (bytes "</body>") ≡ false → Injected pixel html (html ++ pixel)

-- With a public id, the body of the message is kept, and the pixel is put in once: before the last
-- `</body>`, or at the end where there is none.
pub inject_open_pixel-Injected :
    (html base_url send_public_id : Str)
    → is_nil send_public_id ≡ false
    → Injected
        (open_pixel base_url send_public_id)
        html
        (inject_open_pixel html base_url send_public_id)
unfolding inject_open_pixel
inject_open_pixel-Injected html base_url [] n = absurd (cc)
inject_open_pixel-Injected html base_url (x ∷ xs) n =
    placed (last_index html (bytes "</body>")) (last_index-LastIndex html (bytes "</body>") refl)
  where
    pixel : Str
    pixel = open_pixel base_url (x ∷ xs)

    placed :
        (o : Option ℕ)
        → LastIndex html (bytes "</body>") o
        → Injected pixel html (elim o as (λ _. Str) [
          | some i ↦ take i html ++ (pixel ++ drop i html)
          | none ↦ html ++ pixel
        ])
    placed (some i) h = before_body (take i html) (drop i html) h
    placed none h = at_end h
