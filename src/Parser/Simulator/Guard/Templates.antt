-- ===== src/Parser/Simulator/Guard/Templates.antt =====
-- Whole runs of the guard: templates in a `<select>`, and the state after a `<frameset>`.
use lol_html.Base.Outcome.{Outcome, ok, err, panic, Outcome-cases, ◌>>=◌, bind-eq-ok}
use lol_html.Html.LocalName.{LocalNameHash, hash_is, is_one_of}
use lol_html.Html.Tag.{Tag}
use lol_html.Parser.Simulator.Guard.{
  State, in_template_in_select, in_or_after_frameset, AmbiguityError, text_switching_tags,
  on_tag_name, assert_not_ambigious_text_type_switch, track_start_tag, track_end_tag,
  track-ne-panic,
}
use lol_html.Prelude.{
  ℕ, ◌+◌, ◌-◌, ◌%◌, ◌^◌, ◌<◌, false, not, List, [], ◌∷◌, ◌++◌, ◌≡◌, ◌≢◌, ◌⊎◌, refl, arith, ◌==◌,
  Option, none, some, ◌&&◌, inl, inr, ◌∙◌, ap, if◌then◌else◌,
}

-- A tag that the simulator reports to the guard.
pub data TagSeen : Type 0 where
  opened closed : LocalNameHash → TagSeen

unfoldable pub track : State → TagSeen → Outcome AmbiguityError State
unfolding track_start_tag track_end_tag
track s (opened tag_name) = track_start_tag s tag_name
track s (closed tag_name) = ok (track_end_tag s tag_name)

unfoldable pub track_all : State → List TagSeen → Outcome AmbiguityError State
unfolding track
track_all s [] = ok s
track_all s (tag ∷ tags) = track s tag >>= λ s'. track_all s' tags

abbrev pub template_hash : LocalNameHash
template_hash = some 870_357_441_322

-- Tags in which each `<template>` has its `</template>`.
pub data Balanced : Type 0 where
  nothing : Balanced
  start_then end_then : LocalNameHash → Balanced → Balanced
  template_then : Balanced → Balanced → Balanced

abbrev pub tags_of : Balanced → List TagSeen
tags_of nothing = []
tags_of (start_then h rest) = opened h ∷ tags_of rest
tags_of (end_then h rest) = closed h ∷ tags_of rest
tags_of (template_then inner rest) =
    opened template_hash ∷ (tags_of inner ++ closed template_hash ∷ tags_of rest)

-- No other tag is a template.
abbrev pub IsPlain : Balanced → Type 0
IsPlain nothing = Unit
IsPlain (start_then h rest) = (hash_is h Tag.template ≡ false) × IsPlain rest
IsPlain (end_then h rest) = (hash_is h Tag.template ≡ false) × IsPlain rest
IsPlain (template_then inner rest) = IsPlain inner × IsPlain rest

-- How deep the templates go.
abbrev pub nesting : Balanced → ℕ
nesting nothing = 0
nesting (start_then h rest) = nesting rest
nesting (end_then h rest) = nesting rest
nesting (template_then inner rest) = nesting inner + 1 + nesting rest

track_all-append :
    (xs ys : List TagSeen) (s : State) {s' : State}
    → track_all s (xs ++ ys) ≡ ok s'
    → (t : State) × (track_all s xs ≡ ok t) × (track_all t ys ≡ ok s')
unfolding track_all ◌>>=◌
track_all-append [] ys s e = (s, refl, e)
track_all-append (x ∷ xs) ys s e =
    let (m, e1, e2) = bind-eq-ok (track s x) _ e in
    let (t, e3, e4) = track_all-append xs ys m e2 in (t, (rw e1 e3), e4)

start-plain :
    (d : ℕ) (h : LocalNameHash) {s : State}
    → hash_is h Tag.template ≡ false
    → track (in_template_in_select d) (opened h) ≡ ok s
    → s ≡ in_template_in_select d
unfolding track track_start_tag assert_not_ambigious_text_type_switch
start-plain d h p e = ground arith

end-plain :
    (d : ℕ) (h : LocalNameHash)
    → hash_is h Tag.template ≡ false
    → track (in_template_in_select d) (closed h) ≡ ok (in_template_in_select d)
unfolding track track_end_tag
end-plain d h p = rw p

open-template :
    (d : ℕ)
    → d + 1 < 2 ^ 64
    → track (in_template_in_select d) (opened template_hash) ≡ ok (in_template_in_select (d + 1))
unfolding track track_start_tag hash_is
open-template d lt = let m : (d + 1) % 2 ^ 64 ≡ d + 1 = omega arith in rw m

close-template :
    (d : ℕ)
    → 0 < d
    → d + 1 < 2 ^ 64
    → track (in_template_in_select (d + 1)) (closed template_hash) ≡ ok (in_template_in_select d)
unfolding track track_end_tag hash_is
close-template d pos lt =
    let n : ((d + 1) == 1) ≡ false = ground arith in
    let m : (d + 1 + 2 ^ 64 - 1) % 2 ^ 64 ≡ d = omega arith in rw (n, m)

-- A run whose first step is known.
after-known :
    (s t : State) (tag : TagSeen) (tags : List TagSeen) {s' : State}
    → track s tag ≡ ok t
    → track_all s (tag ∷ tags) ≡ ok s'
    → track_all t tags ≡ ok s'
unfolding track_all ◌>>=◌
after-known s t tag tags k e = rw k at e

restores :
    (b : Balanced) (d : ℕ) {s : State}
    → IsPlain b
    → 0 < d
    → d + nesting b < 2 ^ 64
    → track_all (in_template_in_select d) (tags_of b) ≡ ok s
    → s ≡ in_template_in_select d
unfolding track_all
restores nothing d p pos lt e = cc
restores (start_then h rest) d (p, ps) pos lt e =
    let (t, e1, e2) = bind-eq-ok (track (in_template_in_select d) (opened h)) _ e in
    let same = start-plain d h p e1 in restores rest d ps pos lt (rw same at e2)
restores (end_then h rest) d (p, ps) pos lt e =
    let e2 =
      after-known (in_template_in_select d) (in_template_in_select d) (closed h) (tags_of rest)
        (end-plain d h p) e in
    restores rest d ps pos lt e2
restores (template_then inner rest) d (p, ps) pos lt e =
    let e2 =
      after-known (in_template_in_select d) (in_template_in_select (d + 1)) (opened template_hash)
        (tags_of inner ++ closed template_hash ∷ tags_of rest) (open-template d (omega arith)) e in
    let (t, e3, e4) =
      track_all-append (tags_of inner) (closed template_hash ∷ tags_of rest)
        (in_template_in_select (d + 1)) e2 in
    let same = restores inner (d + 1) p (omega arith) (omega arith) e3 in
    let e5 =
      after-known (in_template_in_select (d + 1)) (in_template_in_select d) (closed template_hash)
        (tags_of rest) (close-template d pos (omega arith)) (rw same at e4) in
    restores rest d ps pos (omega arith) e5

track_all-ne-panic : (tags : List TagSeen) (s : State) → track_all s tags ≢ panic
unfolding track_all ◌>>=◌ track
track_all-ne-panic [] s e = cc
track_all-ne-panic (closed h ∷ tags) s e = track_all-ne-panic tags (track_end_tag s h) e
track_all-ne-panic (opened h ∷ tags) s e = elim (Outcome-cases (track_start_tag s h)) [
  | inl c ↦ let (t, k) = c in track_all-ne-panic tags t (rw k at e)
  | inr c ↦ elim c [ inl c' ↦ let (x, k) = c' in absurd cc | inr k ↦ track-ne-panic s h k ]
]

-- In a template inside a `<select>`, the guard reads a run of tags whose templates are balanced,
-- with depths that stay within 64 bits, and then either has refused one of the tags or is back at
-- the depth it had.
pub track_all-balanced :
    (b : Balanced) (d : ℕ)
    → IsPlain b
    → 0 < d
    → d + nesting b < 2 ^ 64
    → (track_all (in_template_in_select d) (tags_of b) ≡ ok (in_template_in_select d))
      ⊎ ((e : AmbiguityError) × (track_all (in_template_in_select d) (tags_of b) ≡ err e))
track_all-balanced b d p pos lt =
    elim (Outcome-cases (track_all (in_template_in_select d) (tags_of b))) [
      | inl c ↦ let (s, e) = c in inl (e ∙ ap ok (restores b d p pos lt e))
      | inr c ↦ elim c [
        | inl c' ↦ inr c'
        | inr e ↦ absurd (track_all-ne-panic (tags_of b) (in_template_in_select d) e)
      ]
    ]

-- The first start tag, if any, that switches the text type and is no `<noframes>`.
abbrev pub first_switching : List TagSeen → Option LocalNameHash
first_switching [] = none
first_switching (closed h ∷ tags) = first_switching tags
first_switching (opened h ∷ tags) =
    if not (hash_is h Tag.noframes) && is_one_of h text_switching_tags
    then some h
    else first_switching tags

abbrev pub frameset_outcome : Option LocalNameHash → Outcome AmbiguityError State
frameset_outcome none = ok in_or_after_frameset
frameset_outcome (some h) = err (on_tag_name h)
