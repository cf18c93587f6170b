-- ===== src/RewritableUnits/Mutations.antt =====
-- src/rewritable_units/mutations.rs: content inserted before and after a token, its replacement and
-- removal; `impl_serialize!` of src/rewritable_units/tokens/mod.rs. A string is the list of its
-- characters' codes. `encode` stands for the encoder of the document's encoding, `memchr3` for the
-- crate's function. `none` is for a loop that does not end.
pub mod Escaping
pub mod Serialising
use mathlib.Core.Option
use lol_html.Base.Bytes.{non_empty, Replacement, replace_byte3}
use lol_html.Prelude.{
  ℕ, ◌+◌, Bool, true, false, List, [], ◌∷◌, ◌++◌, Option, none, some, take, drop, length,
  if◌then◌else◌,
}

pub data ContentType : Type 0 where
  html_ text_ : ContentType

-- b"&lt;", b"&gt;" and b"&amp;"
abbrev pub lt_replacement : Replacement
lt_replacement = (b'<', b'&' ∷ b'l' ∷ b't' ∷ b';' ∷ [])

abbrev pub gt_replacement : Replacement
gt_replacement = (b'>', b'&' ∷ b'g' ∷ b't' ∷ b';' ∷ [])

abbrev pub amp_replacement : Replacement
amp_replacement = (b'&', b'&' ∷ b'a' ∷ b'm' ∷ b'p' ∷ b';' ∷ [])

pub record Mutations : Type 0 where
  pub content_before : List ℕ
  pub replacement : List ℕ
  pub content_after : List ℕ
  pub removed : Bool

unfoldable pub new_mutations : Mutations
new_mutations = record {
  content_before = [];
  replacement = [];
  content_after = [];
  removed = false;
}

-- `extend_from_slice` for each chunk.
unfoldable pub extend : List ℕ → List (List ℕ) → List ℕ
extend v [] = v
extend v (c ∷ cs) = extend (v ++ c) cs

-- `splice(pos..pos, c)` for each chunk, with `pos` moved on behind it.
unfoldable pub splice : ℕ → List ℕ → List (List ℕ) → List ℕ
splice pos v [] = v
splice pos v (c ∷ cs) = splice (pos + length c) (take pos v ++ (c ++ drop pos v)) cs

unfoldable pub remove : Mutations → Mutations
remove m = record m { removed = true }

module _ (encode : List ℕ → List ℕ) (memchr3 : ℕ → ℕ → ℕ → List ℕ → Option ℕ) where
  unfoldable pub content_to_bytes : List ℕ → ContentType → Option (List (List ℕ))
  content_to_bytes content html_ = some (encode content ∷ [])
  content_to_bytes content text_ =
      replace_byte3 memchr3 lt_replacement gt_replacement amp_replacement (encode content)

  unfoldable pub before : List ℕ → ContentType → Mutations → Option Mutations
  unfolding content_to_bytes extend
  before content content_type m =
      Option.map (λ chunks. record m { content_before = extend m.content_before chunks })
        (content_to_bytes content content_type)

  unfoldable pub after : List ℕ → ContentType → Mutations → Option Mutations
  unfolding content_to_bytes splice
  after content content_type m =
      Option.map (λ chunks. record m { content_after = splice 0 m.content_after chunks })
        (content_to_bytes content content_type)

  unfoldable pub replace : List ℕ → ContentType → Mutations → Option Mutations
  unfolding content_to_bytes extend remove
  replace content content_type m =
      Option.map (λ chunks. remove (record m { replacement = extend [] chunks }))
        (content_to_bytes content content_type)

-- `to_bytes` of `impl_serialize!`: what the output handler gets. `body` is the raw token, or what
-- `serialize_from_parts` hands on.
unfoldable pub to_bytes : Mutations → List (List ℕ) → List (List ℕ)
to_bytes m body =
    non_empty m.content_before
    ++ ((if m.removed then non_empty m.replacement else body) ++ non_empty m.content_after)
