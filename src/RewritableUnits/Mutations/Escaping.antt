-- ===== src/RewritableUnits/Mutations/Escaping.antt =====
-- Inserted text cannot be taken for markup.
use lol_html.Base.Bytes.Replacing.{substitute, is_needle}
use lol_html.Base.Bytes.{get_replacement}
use lol_html.Prelude.{
  ℕ, zero, suc, ◌≡◌, ◌≢◌, refl, ap, Bool, true, false, ◌&&◌, ◌⊎◌, ==_iff, List, [], ◌∷◌, ◌==◌,
  if◌then◌else◌, arith, Bool-cases, inl, inr,
}
use lol_html.RewritableUnits.Mutations.{
  ContentType, html_, text_, lt_replacement, gt_replacement, amp_replacement,
}

abbrev pub escape_byte : ℕ → List ℕ
escape_byte = get_replacement lt_replacement gt_replacement amp_replacement

abbrev pub special : ℕ → Bool
special = is_needle lt_replacement gt_replacement amp_replacement

unfoldable pub escaped : List ℕ → List ℕ
escaped = substitute special escape_byte

-- What is inserted for content of each type.
unfoldable pub inserted : (List ℕ → List ℕ) → List ℕ → ContentType → List ℕ
unfolding escaped
inserted encode content html_ = encode content
inserted encode content text_ = escaped (encode content)

-- No byte of it opens or closes a tag.
abbrev pub NoMarkup : List ℕ → Type 0
NoMarkup [] = Unit
NoMarkup (b ∷ bs) = (b ≢ b'<') × (b ≢ b'>') × NoMarkup bs

-- A decoder of the three references, independent of the code above: what stands for the bytes after
-- an ampersand, and how many of them belong to the reference.
abbrev pub starts_with : List ℕ → List ℕ → Bool
starts_with [] bs = true
starts_with (p ∷ ps) [] = false
starts_with (p ∷ ps) (b ∷ bs) = p == b && starts_with ps bs

abbrev pub reference : List ℕ → ℕ × ℕ
reference bs =
    if starts_with (b'l' ∷ b't' ∷ b';' ∷ []) bs
    then (b'<', 3)
    else if starts_with (b'g' ∷ b't' ∷ b';' ∷ []) bs
    then (b'>', 3)
    else if starts_with (b'a' ∷ b'm' ∷ b'p' ∷ b';' ∷ []) bs
    then (b'&', 4)
    else (b'&', 0)

-- The text, from so many bytes on.
unfoldable pub decode_from : ℕ → List ℕ → List ℕ
decode_from skip [] = []
decode_from (suc skip) (b ∷ bs) = decode_from skip bs
decode_from zero (b ∷ bs) =
    let (c, skip) = if b == b'&' then reference bs else (b, 0) in c ∷ decode_from skip bs

three : (b : ℕ) → (b ≡ b'<') ⊎ (b ≡ b'>') ⊎ (b ≡ b'&') ⊎ (special b ≡ false)
three b = elim (Bool-cases (b == b'<')) [
  | inl t ↦ inl ((==_iff b b'<').0 t)
  | inr f ↦ elim (Bool-cases (b == b'>')) [
    | inl t ↦ inr (inl ((==_iff b b'>').0 t))
    | inr g ↦ elim (Bool-cases (b == b'&')) [
      | inl t ↦ inr (inr (inl ((==_iff b b'&').0 t)))
      | inr h ↦ inr (inr (inr (rw (f, g, h) refl)))
    ]
  ]
]

escaped-cons : (b : ℕ) (bs : List ℕ) → special b ≡ false → escaped (b ∷ bs) ≡ b ∷ escaped bs
unfolding escaped substitute
escaped-cons b bs f = rw f refl

not_special : (b : ℕ) → special b ≡ false → (b ≢ b'<') × (b ≢ b'>') × ((b == b'&') ≡ false)
not_special b f = ground (arith, f)

-- Escaped text has no byte that opens or closes a tag, and a decoder of character references gives
-- the text back.
pub escaped-decode_from : (bs : List ℕ) → NoMarkup (escaped bs) × (decode_from 0 (escaped bs) ≡ bs)
unfolding escaped substitute decode_from
escaped-decode_from [] = (tt, refl)
escaped-decode_from (b ∷ bs) =
    let (clean, back) = escaped-decode_from bs in
    elim (three b) [
      | inl e ↦ rw e (ground (arith, clean), ap (λ t. b'<' ∷ t) back)
      | inr (inl e) ↦ rw e (ground (arith, clean), ap (λ t. b'>' ∷ t) back)
      | inr (inr (inl e)) ↦ rw e (ground (arith, clean), ap (λ t. b'&' ∷ t) back)
      | inr (inr (inr f)) ↦
          rw f (let (p, q, r) = not_special b f in ((p, q, clean), rw r (ap (λ t. b ∷ t) back)))
    ]
