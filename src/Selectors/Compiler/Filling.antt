-- ===== src/Selectors/Compiler/Filling.antt =====
-- compile_nodes, step by step: what placing a list of nodes comes to.
use lol_html.Base.Outcome.{ok, ◌>>=◌}
use lol_html.Base.Range.{Range}
use lol_html.Prelude.{
  ℕ, zero, suc, ◌+◌, ◌-◌, ◌≤◌, ◌<◌, ◌≡◌, refl, ap, ◌∙◌, ◌⊎◌, inl, inr, Bool, false, ◌||◌, List, [],
  ◌∷◌, Option, some, length, get_elem?, arith, ltb, ltb→lt, ltb→le, Bool-cases,
}
use lol_html.Selectors.Ast.Counting.{count_nodes}
use lol_html.Selectors.Ast.{Predicate, AstNodes, ast_node, no_nodes, node_and}
use lol_html.Selectors.Compiler.{
  Compiler, length_nodes, reserve, set_instruction, compile_descendants, compile_in,
}
use lol_html.Selectors.Program.{ExecutionBranch, Instruction}
use lol_html.Selectors.Compiler.Placing.{
  Slots, below, length_nodes-le, range_of, Within, Placed, Placed-same,
}

pub set_instruction-get :
    {P : Type 0} (position : ℕ) (x : Instruction P) (slots : Slots P)
    → position < length slots
    → (slots' : Slots P) × (set_instruction position x slots ≡ some slots')
      × (length slots' ≡ length slots)
      × (get_elem? slots' position ≡ some (some x))
      × ((i : ℕ) → (i < position) ⊎ (position < i) → get_elem? slots' i ≡ get_elem? slots i)
unfolding set_instruction
set_instruction-get position x [] lt = absurd (omega arith)
set_instruction-get zero x (slot ∷ slots) lt = (some x ∷ slots, refl, refl, refl, kept)
  where
    kept : (i : ℕ) → (i < 0) ⊎ (0 < i) → get_elem? (some x ∷ slots) i ≡ get_elem? (slot ∷ slots) i
    kept zero w = absurd (omega arith)
    kept (suc i) w = refl
set_instruction-get (suc position) x (slot ∷ slots) lt =
    let (slots', e, len, here, same) = set_instruction-get position x slots (omega arith) in
    (slot ∷ slots', rw e refl, ap suc len, here, kept slot slots slots' position same)
  where
    kept :
        {P : Type 0} (slot : Option (Instruction P)) (slots slots' : Slots P) (position : ℕ)
        → ((i : ℕ) → (i < position) ⊎ (position < i) → get_elem? slots' i ≡ get_elem? slots i)
        → (i : ℕ) → (i < suc position) ⊎ (suc position < i)
        → get_elem? (slot ∷ slots') i ≡ get_elem? (slot ∷ slots) i
    kept slot slots slots' position same zero w = refl
    kept slot slots slots' position same (suc i) w = same i (ground (arith, w))

pub reserve-fits :
    {P : Type 0} (count : ℕ) (c : Compiler P)
    → c.free_space_start + count ≤ length c.instructions
    → reserve count c
      ≡ ok (
        record c { free_space_start = c.free_space_start + count },
        record { start = c.free_space_start; end = c.free_space_start + count },
      )
unfolding reserve
reserve-fits count c le =
    let f : ltb (length c.instructions) (c.free_space_start + count) ≡ false = ground arith in rw f

le_of_not : (m n : ℕ) → (n < m → ⊥) → m ≤ n
le_of_not m n h = ground (arith, h)

module _ {P : Type 0} (compile_one : Predicate → ExecutionBranch P → Instruction P)
    (counts : Predicate → Bool) where
  -- What placing some nodes comes to: their space is used up, no other address is touched, and they
  -- stand where they should.
  abbrev pub Compiled : AstNodes P → ℕ → Compiler P → Compiler P → Type 0
  Compiled nodes position c c' =
      (c'.free_space_start ≡ c.free_space_start + below nodes)
      × (length c'.instructions ≡ length c.instructions)
      × ((i : ℕ)
          → (Within position c.free_space_start nodes i → ⊥)
          → get_elem? c'.instructions i ≡ get_elem? c.instructions i)
      × Placed compile_one (get_elem? c'.instructions) position c.free_space_start nodes

  abbrev pub Compiles : AstNodes P → Type 0
  Compiles nodes =
      (position : ℕ) (c : Compiler P)
      → position + length_nodes nodes ≤ c.free_space_start
      → c.free_space_start + below nodes ≤ length c.instructions
      → (c' : Compiler P) × (compile_in compile_one counts nodes position c ≡ ok c')
        × Compiled nodes position c c'

  -- The same for the nodes below a node: they get the free space.
  abbrev pub CompiledBelow : AstNodes P → Compiler P → Compiler P → Type 0
  CompiledBelow nodes c c' =
      (c'.free_space_start ≡ c.free_space_start + count_nodes nodes)
      × (length c'.instructions ≡ length c.instructions)
      × ((i : ℕ)
          → (i < c.free_space_start) ⊎ (c.free_space_start + count_nodes nodes ≤ i)
          → get_elem? c'.instructions i ≡ get_elem? c.instructions i)
      × Placed compile_one (get_elem? c'.instructions) c.free_space_start
          (c.free_space_start + length_nodes nodes) nodes

  compile_descendants-Compiled :
      (nodes : AstNodes P) (c : Compiler P)
      → Compiles nodes
      → c.free_space_start + count_nodes nodes ≤ length c.instructions
      → (c' : Compiler P) × (compile_descendants compile_one counts nodes
            (compile_in compile_one counts nodes)
            c
          ≡ ok (c', range_of nodes c.free_space_start))
        × CompiledBelow nodes c c'
  unfolding ◌>>=◌ count_nodes Placed
  compile_descendants-Compiled no_nodes c h fits = (c, refl, (omega arith, refl, λ i w. refl, tt))
  compile_descendants-Compiled (node_and n nodes) c h fits =
      let le = length_nodes-le (node_and n nodes) in
      let c₁ : Compiler P = record c {
        free_space_start = c.free_space_start + length_nodes (node_and n nodes);
      } in
      let (c', e, (free, len, same, placed)) =
        h c.free_space_start c₁ (omega arith) (omega (arith, le, fits)) in
      (
        c',
        rw (reserve-fits (length_nodes (node_and n nodes)) c (omega (arith, le, fits)), e) refl,
        (
          omega (arith, free, le),
          len,
          λ i w. same i (λ within. ground (arith, w, within, le)),
          placed,
        ),
      )

  compile_in-step :
      (p : Predicate) (children descendants : AstNodes P) (l : List P) (nodes : AstNodes P)
      (position : ℕ) (c : Compiler P) {c₁ c₂ c' : Compiler P} {r₁ r₂ : Option Range}
      {slots : Slots P}
      → compile_descendants compile_one counts children (compile_in compile_one counts children) c
        ≡ ok (c₁, r₁)
      → compile_descendants compile_one counts descendants
          (compile_in compile_one counts descendants)
          c₁
        ≡ ok (c₂, r₂)
      → set_instruction position
          (compile_one p (record { matched_payload = l; jumps = r₁; hereditary_jumps = r₂ }))
          c₂.instructions
        ≡ some slots
      → compile_in compile_one counts nodes (position + 1) (record c₂ {
        instructions = slots;
        enable_nth_of_type = c₂.enable_nth_of_type || counts p;
      })
        ≡ ok c'
      → compile_in compile_one counts
          (node_and (ast_node p children descendants l) nodes)
          position
          c
        ≡ ok c'
  unfolding compile_in ◌>>=◌
  compile_in-step p children descendants l nodes position c e₁ e₂ e₃ e₄ = rw (e₁, e₂, e₃) e₄

  apart :
      (position free f₁ f₂ ln cn cc cd i : ℕ)
      → (((position ≤ i) × (i < position + suc ln))
            ⊎ ((free ≤ i) × (i < free + (suc (cc + cd) + cn - suc ln)))
          → ⊥)
      → ln ≤ cn
      → position + suc ln ≤ free
      → f₁ ≡ free + cc
      → f₂ ≡ f₁ + cd
      → (((position + 1 ≤ i) × (i < position + 1 + ln)) ⊎ ((f₂ ≤ i) × (i < f₂ + (cn - ln))) → ⊥)
        × ((i < position) ⊎ (position < i))
        × ((i < f₁) ⊎ (f₁ + cd ≤ i))
        × ((i < free) ⊎ (free + cc ≤ i))
  apart position free f₁ f₂ ln cn cc cd i w le fits q₁ q₂ = elim (Bool-cases (ltb i position)) [
    | inl t ↦
        let lt = ltb→lt i position t in
        (
          λ v. elim v [ inl (a, b) ↦ absurd (omega arith) | inr (a, b) ↦ absurd (omega arith) ],
          inl lt,
          inl (omega arith),
          inl (omega arith),
        )
    | inr f ↦
        let ge = ltb→le i position f in
        elim (Bool-cases (ltb i free)) [
          | inl t ↦
              let lt = ltb→lt i free t in
              let above = le_of_not (position + suc ln) i (λ b. w (inl (ge, b))) in
              (
                λ v. elim v [
                  | inl (a, b) ↦ absurd (omega arith)
                  | inr (a, b) ↦ absurd (omega arith)
                ],
                inr (omega arith),
                inl (omega arith),
                inl lt,
              )
          | inr f' ↦
              let ge' = ltb→le i free f' in
              let above =
                le_of_not (free + (suc (cc + cd) + cn - suc ln)) i (λ b. w (inr (ge', b))) in
              (
                λ v. elim v [
                  | inl (a, b) ↦ absurd (omega arith)
                  | inr (a, b) ↦ absurd (omega arith)
                ],
                inr (omega arith),
                inr (omega arith),
                inr (omega arith),
              )
        ]
  ]

  Within-of_bounds :
      (free : ℕ) (nodes : AstNodes P) (i : ℕ)
      → Within free (free + length_nodes nodes) nodes i
      → (free ≤ i) × (i < free + count_nodes nodes)
  Within-of_bounds free nodes i (inl (a, b)) = let le = length_nodes-le nodes in (a, omega arith)
  Within-of_bounds free nodes i (inr (a, b)) =
      let le = length_nodes-le nodes in (omega arith, omega (arith, b, le))

  not_later :
      (position f : ℕ) (nodes : AstNodes P)
      → position < f
      → Within (position + 1) f nodes position
      → ⊥
  not_later position f nodes lt (inl (a, b)) = absurd (omega arith)
  not_later position f nodes lt (inr (a, b)) = absurd (omega arith)

  not_free :
      (position f : ℕ) (nodes : AstNodes P) (i : ℕ)
      → i < f
      → position + 1 + length_nodes nodes ≤ i
      → Within (position + 1) f nodes i
      → ⊥
  not_free position f nodes i lt le (inl (a, b)) = absurd (omega arith)
  not_free position f nodes i lt le (inr (a, b)) = absurd (omega arith)

  -- What stands at the addresses after each step, put together.
  place_all :
      (p : Predicate) (children descendants : AstNodes P) (l : List P) (nodes : AstNodes P)
      (position free f₁ f₂ : ℕ) (g g₁ g₂ g₃ g' : ℕ → Option (Option (Instruction P)))
      → position + suc (length_nodes nodes) ≤ free
      → f₁ ≡ free + count_nodes children
      → f₂ ≡ f₁ + count_nodes descendants
      → ((i : ℕ) → (i < free) ⊎ (free + count_nodes children ≤ i) → g₁ i ≡ g i)
      → Placed compile_one g₁ free (free + length_nodes children) children
      → ((i : ℕ) → (i < f₁) ⊎ (f₁ + count_nodes descendants ≤ i) → g₂ i ≡ g₁ i)
      → Placed compile_one g₂ f₁ (f₁ + length_nodes descendants) descendants
      → g₃ position
        ≡ some (
            some (
              compile_one p (record {
                matched_payload = l;
                jumps = range_of children free;
                hereditary_jumps = range_of descendants f₁;
              })))
      → ((i : ℕ) → (i < position) ⊎ (position < i) → g₃ i ≡ g₂ i)
      → ((i : ℕ) → (Within (position + 1) f₂ nodes i → ⊥) → g' i ≡ g₃ i)
      → Placed compile_one g' (position + 1) f₂ nodes
      → ((i : ℕ)
          → (Within position free (node_and (ast_node p children descendants l) nodes) i → ⊥)
          → g' i ≡ g i)
        × Placed compile_one g' position free (node_and (ast_node p children descendants l) nodes)
  unfolding Placed count_nodes
  place_all p children descendants l nodes position free f₁ f₂ g g₁ g₂ g₃ g' fits q₁ q₂ same₁
        placed₁ same₂ placed₂ here same₃ same₄ placed₄ =
      let lc = length_nodes-le children in
      let ld = length_nodes-le descendants in
      let ln = length_nodes-le nodes in
      let e₁ : free + count_nodes children ≡ f₁ = omega (arith, q₁) in
      let e₂ : f₁ + count_nodes descendants ≡ f₂ = omega (arith, q₂) in
      (
        λ i w.
            let (v, a, b, c) =
              apart position free f₁ f₂ (length_nodes nodes) (count_nodes nodes)
                (count_nodes children) (count_nodes descendants) i w ln fits q₁ q₂ in
            same₄ i v ∙ same₃ i a ∙ same₂ i b ∙ same₁ i c,
        rw (e₁, e₂)
            (
              same₄ position (not_later position f₂ nodes (omega (arith, fits, q₁, q₂))) ∙ here,
              Placed-same compile_one g₁ g' free (free + length_nodes children) children
                  (λ i w.
                    let (lo, hi) = Within-of_bounds free children i w in
                    same₄ i (
                      not_free position f₂ nodes i (omega (arith, hi, q₁, q₂))
                        (omega (arith, lo, fits)))
                    ∙ same₃ i (inr (omega (arith, lo, fits)))
                    ∙ same₂ i (inl (omega (arith, hi, q₁))))
                  placed₁,
              Placed-same compile_one g₂ g' f₁ (f₁ + length_nodes descendants) descendants
                  (λ i w.
                    let (lo, hi) = Within-of_bounds f₁ descendants i w in
                    same₄ i (
                      not_free position f₂ nodes i (omega (arith, hi, q₂))
                        (omega (arith, lo, fits, q₁)))
                    ∙ same₃ i (inr (omega (arith, lo, fits, q₁))))
                  placed₂,
              placed₄,
            ),
      )

  -- The node's own instruction and the nodes after it, where those below it stand.
  compile_in-after :
      (p : Predicate) (children descendants : AstNodes P) (l : List P) (nodes : AstNodes P)
      (position : ℕ) (c c₁ c₂ : Compiler P)
      → Compiles nodes
      → position + suc (length_nodes nodes) ≤ c.free_space_start
      → c.free_space_start + below (node_and (ast_node p children descendants l) nodes)
        ≤ length c.instructions
      → compile_descendants compile_one counts children (compile_in compile_one counts children) c
        ≡ ok (c₁, range_of children c.free_space_start)
      → CompiledBelow children c c₁
      → compile_descendants compile_one counts descendants
          (compile_in compile_one counts descendants)
          c₁
        ≡ ok (c₂, range_of descendants c₁.free_space_start)
      → CompiledBelow descendants c₁ c₂
      → (c' : Compiler P) × (compile_in compile_one counts
            (node_and (ast_node p children descendants l) nodes)
            position
            c
          ≡ ok c')
        × Compiled (node_and (ast_node p children descendants l) nodes) position c c'
  unfolding count_nodes Placed
  compile_in-after p children descendants l nodes position c c₁ c₂ h fits room e₁
        (free₁, len₁, same₁, placed₁) e₂ (free₂, len₂, same₂, placed₂) =
      let lc = length_nodes-le children in
      let ld = length_nodes-le descendants in
      let ln = length_nodes-le nodes in
      let (slots, e₃, len₃, here, same₃) =
        set_instruction-get position
          (compile_one p (record {
            matched_payload = l;
            jumps = range_of children c.free_space_start;
            hereditary_jumps = range_of descendants c₁.free_space_start;
          }))
          c₂.instructions (omega (arith, ln, fits, room, len₁, len₂)) in
      let (c', e₄, (free₄, len₄, same₄, placed₄)) =
        h (position + 1)
          (record c₂ {
            instructions = slots;
            enable_nth_of_type = c₂.enable_nth_of_type || counts p;
          })
          (omega (arith, lc, ld, ln, fits, free₁, free₂))
          (omega (arith, lc, ld, ln, fits, room, free₁, len₁, free₂, len₂, len₃)) in
      let outcome =
        place_all p children descendants l nodes position c.free_space_start c₁.free_space_start
          c₂.free_space_start (get_elem? c.instructions) (get_elem? c₁.instructions)
          (get_elem? c₂.instructions) (get_elem? slots) (get_elem? c'.instructions) fits free₁ free₂
          same₁ placed₁ same₂ placed₂ here same₃ same₄ placed₄ in
      (
        c',
        compile_in-step p children descendants l nodes position c e₁ e₂ e₃ e₄,
        (
          omega (arith, lc, ld, ln, free₁, free₂, free₄),
          omega (arith, len₁, len₂, len₃, len₄),
          outcome.0,
          outcome.1,
        ),
      )

  -- Every list of nodes compiles, where its addresses and the space below it are there.
  pub compile_in-Compiled : (nodes : AstNodes P) → Compiles nodes
  unfolding compile_in count_nodes Placed
  compile_in-Compiled no_nodes position c fits room =
      (c, refl, (omega arith, refl, λ i w. refl, tt))
  compile_in-Compiled (node_and (ast_node p children descendants l) nodes) position c fits room =
      let lc = length_nodes-le children in
      let ld = length_nodes-le descendants in
      let ln = length_nodes-le nodes in
      let (c₁, e₁, (free₁, len₁, same₁, placed₁)) =
        compile_descendants-Compiled children c (compile_in-Compiled children)
          (omega (arith, lc, ld, ln, fits, room)) in
      let (c₂, e₂, b₂) =
        compile_descendants-Compiled descendants c₁ (compile_in-Compiled descendants)
          (omega (arith, lc, ld, ln, fits, room, free₁, len₁)) in
      compile_in-after p children descendants l nodes position c c₁ c₂ (compile_in-Compiled nodes)
        fits room e₁ (free₁, len₁, same₁, placed₁) e₂ b₂
