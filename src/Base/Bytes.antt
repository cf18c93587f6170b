-- ===== src/Base/Bytes.antt =====
-- src/base/bytes.rs: `replace_byte` and `replace_byte3`, which hand a text on in chunks with some
-- bytes replaced. The output handler's calls are a list of chunks. `memchr` and `memchr3` stand for the
-- crate's functions of those names: the first position of a byte, where there is one.
pub mod Replacing
use lol_html.Prelude.{
  ℕ, zero, suc, ◌+◌, Bool, true, false, ◌||◌, List, [], ◌∷◌, ◌++◌, Option, none, some, take, drop,
  length, get_elem?, ◌==◌, if◌then◌else◌,
}

-- `if !chunk.is_empty() { output_handler(chunk) }`.
abbrev pub non_empty : List ℕ → List (List ℕ)
non_empty [] = []
non_empty (b ∷ bs) = (b ∷ bs) ∷ []

-- The chunk before a match and its replacement, and the chunks of what follows.
abbrev pub emit : (ℕ → List ℕ) → List ℕ → Option ℕ → Option (List (List ℕ)) → Option (List (List ℕ))
emit replacement chunk none rest = none
emit replacement chunk (some matched) none = none
emit replacement chunk (some matched) (some chunks) =
    some (non_empty chunk ++ replacement matched ∷ chunks)

-- A round of `impl_replace_byte!`: `go` is the rest of the loop, from the position after a match on.
abbrev pub replace_round :
    (ℕ → List ℕ) → List ℕ → (ℕ → Option (List (List ℕ))) → Option ℕ → Option (List (List ℕ))
replace_round replacement tail go none = some (non_empty tail)
replace_round replacement tail go (some pos) =
    emit replacement (take pos tail) (get_elem? tail pos) (go (pos + 1))

-- Each round but the last shortens the tail. `none` where the fuel is out, or where `tail[pos]` is
-- out of range.
unfoldable pub replace_loop :
    ℕ → (List ℕ → Option ℕ) → (ℕ → List ℕ) → List ℕ → Option (List (List ℕ))
replace_loop zero find replacement tail = none
replace_loop (suc fuel) find replacement tail =
    replace_round replacement tail (λ n. replace_loop fuel find replacement (drop n tail))
      (find tail)

unfoldable pub replace_byte : (ℕ → List ℕ → Option ℕ) → ℕ → List ℕ → List ℕ → Option (List (List ℕ))
unfolding replace_loop
replace_byte memchr needle repl bytes =
    replace_loop (suc (length bytes)) (memchr needle) (λ _. repl) bytes

-- A needle and its replacement.
abbrev pub Replacement : Type 0
Replacement = ℕ × List ℕ

abbrev pub get_replacement : Replacement → Replacement → Replacement → ℕ → List ℕ
get_replacement (needle₁, repl₁) (needle₂, repl₂) (_, repl₃) matched =
    if matched == needle₁ then repl₁ else if matched == needle₂ then repl₂ else repl₃

unfoldable pub replace_byte3 :
    (ℕ → ℕ → ℕ → List ℕ → Option ℕ)
    → Replacement
    → Replacement
    → Replacement
    → List ℕ
    → Option (List (List ℕ))
unfolding replace_loop
replace_byte3 memchr3 a b c bytes =
    replace_loop (suc (length bytes)) (memchr3 a.0 b.0 c.0) (get_replacement a b c) bytes
