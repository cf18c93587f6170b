-- ===== src/RewritableUnits/Mutations/Serialising.antt =====
-- A token after any mutations: what it is serialised to.
use mathlib.Core.List.{append_assoc, append-nil}
use lol_html.Base.Bytes.Replacing.{concat, first_position, replace_byte3-substitute}
use lol_html.Base.Bytes.{non_empty}
use lol_html.Prelude.{
  ℕ, ◌+◌, ◌≡◌, refl, sym, ap, ◌∙◌, Bool, true, false, ◌||◌, List, [], ◌∷◌, ◌++◌, Option, none, some,
  take, drop, length, ◌==◌, if◌then◌else◌, arith, take-append, length-append, drop-append,
}
use lol_html.RewritableUnits.Mutations.Escaping.{
  inserted, escaped, NoMarkup, decode_from, escaped-decode_from,
}
use lol_html.RewritableUnits.Mutations.{
  ContentType, html_, text_, lt_replacement, gt_replacement, amp_replacement, Mutations,
  new_mutations, extend, splice, remove, content_to_bytes, before, after, replace, to_bytes,
}

pub data Mutation : Type 0 where
  before_ after_ replace_ : List ℕ → ContentType → Mutation
  remove_ : Mutation

abbrev pub and_then : Option Mutations → (Mutations → Option Mutations) → Option Mutations
and_then none f = none
and_then (some m) f = f m

module _ (encode : List ℕ → List ℕ) (memchr3 : ℕ → ℕ → ℕ → List ℕ → Option ℕ) where
  unfoldable pub mutate : Mutation → Mutations → Option Mutations
  mutate (before_ content t) m = before encode memchr3 content t m
  mutate (after_ content t) m = after encode memchr3 content t m
  mutate (replace_ content t) m = replace encode memchr3 content t m
  mutate remove_ m = some (remove m)

  unfoldable pub mutate_all : List Mutation → Mutations → Option Mutations
  unfolding mutate
  mutate_all [] m = some m
  mutate_all (x ∷ xs) m = and_then (mutate x m) (mutate_all xs)

  mutate_all-step :
      (x : Mutation) (xs : List Mutation) (m : Mutations) {m₁ : Mutations}
      → mutate x m ≡ some m₁
      → mutate_all (x ∷ xs) m ≡ mutate_all xs m₁
  unfolding mutate_all
  mutate_all-step x xs m e = ap (λ o. and_then o (mutate_all xs)) e

-- What a caller of the mutations is promised: what was inserted before in the order of the calls, the
-- token or the last replacement, and what was inserted after, the last call first.
pub record Promise : Type 0 where
  pub prefix : List ℕ
  pub middle : List ℕ
  pub suffix : List ℕ

unfoldable pub promised : (List ℕ → List ℕ) → List Mutation → Bool → Promise → Promise
promised encode [] gone p = p
promised encode (before_ content t ∷ xs) gone p =
    promised encode xs gone (record p { prefix = p.prefix ++ inserted encode content t })
promised encode (after_ content t ∷ xs) gone p =
    promised encode xs gone (record p { suffix = inserted encode content t ++ p.suffix })
promised encode (replace_ content t ∷ xs) gone p =
    promised encode xs true (record p { middle = inserted encode content t })
promised encode (remove_ ∷ xs) gone p =
    promised encode xs true (if gone then p else record p { middle = [] })

extend-concat : (v : List ℕ) (cs : List (List ℕ)) → extend v cs ≡ v ++ concat cs
unfolding extend concat
extend-concat v [] = sym (append-nil v)
extend-concat v (c ∷ cs) = extend-concat (v ++ c) cs ∙ append_assoc v c (concat cs)

splice-concat :
    (done rest : List ℕ) (cs : List (List ℕ)) (pos : ℕ)
    → pos ≡ length done
    → splice pos (done ++ rest) cs ≡ done ++ (concat cs ++ rest)
unfolding splice concat
splice-concat done rest [] pos e = refl
splice-concat done rest (c ∷ cs) pos e =
    let here : take pos (done ++ rest) ≡ done = rw e (take-append done rest) in
    let there : drop pos (done ++ rest) ≡ rest = rw e (drop-append done rest) in
    let next : pos + length c ≡ length (done ++ c) = omega (arith, e, length-append done c) in
    rw (here, there)
      (ap (λ v. splice (pos + length c) v cs) (sym (append_assoc done c rest))
        ∙ splice-concat (done ++ c) rest cs (pos + length c) next
        ∙ append_assoc done c (concat cs ++ rest)
        ∙ ap (λ v. done ++ v) (sym (append_assoc c (concat cs) rest)))

pub concat-append : (cs ds : List (List ℕ)) → concat (cs ++ ds) ≡ concat cs ++ concat ds
unfolding concat
concat-append [] ds = refl
concat-append (c ∷ cs) ds =
    ap (λ t. c ++ t) (concat-append cs ds) ∙ sym (append_assoc c (concat cs) (concat ds))

concat-non_empty_only : (bs : List ℕ) → concat (non_empty bs) ≡ bs
unfolding concat
concat-non_empty_only [] = refl
concat-non_empty_only (b ∷ bs) = append-nil (b ∷ bs)

concat-middle :
    (removed : Bool) (replacement : List ℕ) (body : List (List ℕ))
    → concat (if removed then non_empty replacement else body)
      ≡ (if removed then replacement else concat body)
concat-middle true replacement body = concat-non_empty_only replacement
concat-middle false replacement body = refl

pub concat-to_bytes :
    (m : Mutations) (body : List (List ℕ))
    → concat (to_bytes m body)
      ≡ m.content_before ++ ((if m.removed then m.replacement else concat body) ++ m.content_after)
unfolding to_bytes
concat-to_bytes m body =
    concat-append (non_empty m.content_before)
      ((if m.removed then non_empty m.replacement else body) ++ non_empty m.content_after)
    ∙ ap
        (λ t.
          t
          ++ concat
              ((if m.removed then non_empty m.replacement else body) ++ non_empty m.content_after))
        (concat-non_empty_only m.content_before)
    ∙ ap (λ t. m.content_before ++ t)
        (concat-append (if m.removed then non_empty m.replacement else body)
            (non_empty m.content_after)
          ∙ ap (λ t. concat (if m.removed then non_empty m.replacement else body) ++ t)
              (concat-non_empty_only m.content_after)
          ∙ ap (λ t. t ++ m.content_after) (concat-middle m.removed m.replacement body))

-- How the mutations stand to what was promised.
abbrev pub Keeps : List ℕ → Mutations → Bool → Promise → Type 0
Keeps body m gone p =
    (m.content_before ≡ p.prefix)
    × (m.content_after ≡ p.suffix)
    × (m.removed ≡ gone)
    × ((if gone then m.replacement else body) ≡ p.middle)
    × (gone ≡ false → m.replacement ≡ [])

abbrev pub output : Promise → List ℕ
output p = p.prefix ++ (p.middle ++ p.suffix)

output-Keeps :
    (body : List ℕ) (m : Mutations) (gone : Bool) (p : Promise)
    → Keeps body m gone p
    → m.content_before ++ ((if m.removed then m.replacement else body) ++ m.content_after)
      ≡ output p
output-Keeps body m gone p (b, a, r, mid, _) = rw (b, a, r, mid) refl

module _ (encode : List ℕ → List ℕ) (memchr3 : ℕ → ℕ → ℕ → List ℕ → Option ℕ)
    (finds : (a b c : ℕ) (bs : List ℕ)
      → memchr3 a b c bs ≡ first_position (λ x. x == a || (x == b || x == c)) bs) where
  pub content_to_bytes-inserted :
      (content : List ℕ) (t : ContentType)
      → (chunks : List (List ℕ)) × (content_to_bytes encode memchr3 content t ≡ some chunks)
        × (concat chunks ≡ inserted encode content t)
  unfolding content_to_bytes inserted escaped concat
  content_to_bytes-inserted content html_ = (encode content ∷ [], refl, append-nil (encode content))
  content_to_bytes-inserted content text_ =
      replace_byte3-substitute memchr3 finds lt_replacement gt_replacement amp_replacement
        (encode content)

  -- Content that is inserted as text always becomes bytes, and none of them opens or closes a tag:
  -- a decoder of character references, run over them, gives back the encoded content. `memchr3` is
  -- to find the first of its three bytes.
  pub content_to_bytes-decode_from :
      (content : List ℕ)
      → (chunks : List (List ℕ)) × (content_to_bytes encode memchr3 content text_ ≡ some chunks)
        × NoMarkup (concat chunks)
        × (decode_from 0 (concat chunks) ≡ encode content)
  unfolding inserted
  content_to_bytes-decode_from content =
      let (chunks, e, same) = content_to_bytes-inserted content text_ in
      let (clean, back) = escaped-decode_from (encode content) in
      (chunks, e, rw same clean, rw same back)

  mutate_all-Keeps :
      (xs : List Mutation) (body : List ℕ) (m : Mutations) (gone : Bool) (p : Promise)
      → Keeps body m gone p
      → (m' : Mutations) × (mutate_all encode memchr3 xs m ≡ some m')
        × (gone' : Bool) × Keeps body m' gone' (promised encode xs gone p)
  unfolding mutate_all mutate promised
  mutate_all-Keeps [] body m gone p k = (m, refl, gone, k)
  mutate_all-Keeps (before_ content t ∷ xs) body m gone p (b, a, r, mid, none_yet) =
      let (chunks, e, same) = content_to_bytes-inserted content t in
      let m₁ : Mutations = record m { content_before = extend m.content_before chunks } in
      let step : before encode memchr3 content t m ≡ some m₁ = unfold before in (rw e refl) in
      let added =
        extend-concat m.content_before chunks
        ∙ ap (λ v. m.content_before ++ v) same
        ∙ ap (λ v. v ++ inserted encode content t) b in
      let (m', e', gone', k) = mutate_all-Keeps xs body m₁ gone _ (added, a, r, mid, none_yet) in
      (m', mutate_all-step encode memchr3 (before_ content t) xs m step ∙ e', gone', k)
  mutate_all-Keeps (after_ content t ∷ xs) body m gone p (b, a, r, mid, none_yet) =
      let (chunks, e, same) = content_to_bytes-inserted content t in
      let m₁ : Mutations = record m { content_after = splice 0 m.content_after chunks } in
      let step : after encode memchr3 content t m ≡ some m₁ = unfold after in (rw e refl) in
      let added =
        splice-concat [] m.content_after chunks 0 refl
        ∙ ap (λ v. v ++ m.content_after) same
        ∙ ap (λ v. inserted encode content t ++ v) a in
      let (m', e', gone', k) = mutate_all-Keeps xs body m₁ gone _ (b, added, r, mid, none_yet) in
      (m', mutate_all-step encode memchr3 (after_ content t) xs m step ∙ e', gone', k)
  mutate_all-Keeps (replace_ content t ∷ xs) body m gone p (b, a, r, mid, none_yet) =
      let (chunks, e, same) = content_to_bytes-inserted content t in
      let m₁ : Mutations = record m { replacement = extend [] chunks; removed = true } in
      let step : replace encode memchr3 content t m ≡ some m₁ =
        unfold replace remove in (rw e refl) in
      let (m', e', gone', k) =
        mutate_all-Keeps xs body m₁ true _
          (b, a, refl, extend-concat [] chunks ∙ same, λ f. absurd cc) in
      (m', mutate_all-step encode memchr3 (replace_ content t) xs m step ∙ e', gone', k)
  mutate_all-Keeps (remove_ ∷ xs) body m true p (b, a, r, mid, none_yet) =
      mutate_all-Keeps xs body (remove m) true p
        (unfold remove in (b, a, refl, mid, λ f. absurd cc))
  mutate_all-Keeps (remove_ ∷ xs) body m false p (b, a, r, mid, none_yet) =
      mutate_all-Keeps xs body (remove m) true (record p { middle = [] })
        (unfold remove in (b, a, refl, none_yet refl, λ f. absurd cc))

  -- Whatever mutations a token gets, and in whatever order, none of them fails, and what the token is
  -- serialised to is: all that was inserted before it, in the order of the calls; the token itself
  -- where it was neither replaced nor removed, else what it was last replaced by; and all that was
  -- inserted after it, the last call first. Text is inserted with `<`, `>` and `&` escaped, HTML as it
  -- is. `memchr3` is to find the first of its three bytes.
  pub mutate_all-promised :
      (xs : List Mutation) (body : List (List ℕ))
      → (m : Mutations) × (mutate_all encode memchr3 xs new_mutations ≡ some m)
        × (concat (to_bytes m body)
            ≡ output (
                promised encode xs false
                  (record { prefix = []; middle = concat body; suffix = [] })))
  mutate_all-promised xs body =
      let (m, e, gone, k) =
        mutate_all-Keeps xs (concat body) new_mutations false
          (record { prefix = []; middle = concat body; suffix = [] })
          (unfold new_mutations in (refl, refl, refl, refl, λ f. refl)) in
      (m, e, concat-to_bytes m body ∙ output-Keeps (concat body) m gone _ k)
