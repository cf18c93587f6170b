-- ===== src/Parser/Simulator/Callbacks.antt =====
-- The callbacks that look at a requested lexeme: they keep the namespace stack in order and ask for
-- nothing more.
use lol_html.Base.Outcome.{ok, ◌>>=◌, expect, Safely, Safely-if}
use lol_html.Base.Range.{Range}
use lol_html.Html.TextType.{Namespace}
use lol_html.Parser.Outline.{AttributeOutline, TagTokenOutline, start_tag, end_tag, TagLexeme, part}
use lol_html.Parser.Simulator.Namespaces.{IsWellFormed, IsNested, IsReady, enter_ns-Good}
use lol_html.Parser.Simulator.{
  TreeBuilderSimulator, TreeBuilderFeedback, request_lexeme, none, Callback,
  leave_on_annotation_xml, leave_on_font_attribute, enter_unless_self_closing,
  enter_on_annotation_xml, Answer, enter_ns, leave_ns, leave_to, font_loop, encoding_loop, call_on,
  call,
}
use lol_html.Prelude.{ℕ, List, [], ◌∷◌, some, ◌≡◌, refl}

-- The range lies in the lexeme's input.
abbrev pub IsPart : TagLexeme → Range → Type 0
IsPart lexeme range = (bytes : List ℕ) × (part lexeme range ≡ some bytes)

abbrev pub AttributesIn : TagLexeme → List AttributeOutline → Type 0
AttributesIn lexeme [] = Unit
AttributesIn lexeme (attr ∷ attrs) =
    IsPart lexeme attr.name × IsPart lexeme attr.value × AttributesIn lexeme attrs

-- The lexeme is a tag of the kind the callback asked for, with its parts in range.
abbrev pub Suits : Callback → TagLexeme → TagTokenOutline → Type 0
Suits leave_on_annotation_xml lexeme (end_tag t) = IsPart lexeme t.name
Suits leave_on_annotation_xml lexeme (start_tag t) = ⊥
Suits _ lexeme (start_tag t) = IsPart lexeme t.name × AttributesIn lexeme lexeme.attributes
Suits _ lexeme (end_tag t) = ⊥

-- The feedback after a callback: the stack is in order, and no second lexeme is asked for.
abbrev pub IsFinal : TreeBuilderSimulator × TreeBuilderFeedback → Type 0
IsFinal (s, request_lexeme c) = ⊥
IsFinal (s, f) = IsWellFormed s

abbrev Fine : Answer → Type 0
Fine = Safely IsFinal (λ _. ⊥)

part-then :
    (lexeme : TagLexeme) (range : Range) (f : List ℕ → Answer)
    → IsPart lexeme range
    → ((bytes : List ℕ) → Fine (f bytes))
    → Fine (expect (part lexeme range) >>= f)
unfolding ◌>>=◌
part-then lexeme range f p h = let (bytes, e) = p in rw e (h bytes)

stay-Final : (s : TreeBuilderSimulator) → IsWellFormed s → Fine (ok (s, none))
stay-Final s w = w

enter-Final : (ns : Namespace) (s : TreeBuilderSimulator) → IsWellFormed s → Fine (enter_ns ns s)
unfolding enter_ns
enter-Final ns s w = let (w', _) = enter_ns-Good (λ _. ⊥) ns s w in w'

leave-Final : (s : TreeBuilderSimulator) → IsNested s → Fine (leave_ns s)
unfolding leave_ns leave_to
leave-Final s n = rw n.stack_is (record { below = n.rest; stack_is = refl; bottom = n.bottom })

font-Final :
    (s : TreeBuilderSimulator) (lexeme : TagLexeme) (attrs : List AttributeOutline)
    → IsWellFormed s
    → IsNested s
    → AttributesIn lexeme attrs
    → Fine (font_loop s lexeme attrs)
unfolding font_loop
font-Final s lexeme [] w n ps = w
font-Final s lexeme (attr ∷ attrs) w n (p, _, ps) = part-then lexeme attr.name _ p (λ name.
    Safely-if IsFinal (λ _. ⊥) _ _ _ (λ _. leave-Final s n) (λ _. font-Final s lexeme attrs w n ps))

encoding-Final :
    (s : TreeBuilderSimulator) (lexeme : TagLexeme) (attrs : List AttributeOutline)
    → IsWellFormed s
    → AttributesIn lexeme attrs
    → Fine (encoding_loop s lexeme attrs)
unfolding encoding_loop
encoding-Final s lexeme [] w ps = w
encoding-Final s lexeme (attr ∷ attrs) w (p, q, ps) =
    let rest = encoding-Final s lexeme attrs w ps in
    part-then lexeme attr.name _ p
      (λ name. part-then lexeme attr.value _ q (λ value. search (Safely-if, enter-Final)))

call_on-Final :
    (c : Callback) (token : TagTokenOutline) (s : TreeBuilderSimulator) (lexeme : TagLexeme)
    → IsWellFormed s
    → IsReady s (request_lexeme c)
    → Suits c lexeme token
    → Fine (call_on c token s lexeme)
unfolding call_on
call_on-Final leave_on_annotation_xml (end_tag t) s lexeme w r p =
    part-then lexeme t.name _ p (λ name. search (Safely-if, leave-Final, stay-Final))
call_on-Final enter_unless_self_closing (start_tag t) s lexeme w r p =
    search (Safely-if, enter-Final, stay-Final)
call_on-Final leave_on_font_attribute (start_tag t) s lexeme w r (_, ps) =
    font-Final s lexeme lexeme.attributes w r ps
call_on-Final enter_on_annotation_xml (start_tag t) s lexeme w r (p, ps) =
    part-then lexeme t.name _ p (λ name. search (Safely-if, encoding-Final, stay-Final))
call_on-Final leave_on_annotation_xml (start_tag t) s lexeme w r p = elim p [ ]
call_on-Final enter_unless_self_closing (end_tag t) s lexeme w r p = elim p [ ]
call_on-Final leave_on_font_attribute (end_tag t) s lexeme w r p = elim p [ ]
call_on-Final enter_on_annotation_xml (end_tag t) s lexeme w r p = elim p [ ]

-- A callback that is called on a state it was asked for in, with a lexeme of the kind it expects
-- whose parts lie in its input, neither panics nor fails. It keeps the stack in order and does not
-- ask for another lexeme.
pub call-Final :
    (c : Callback) (s : TreeBuilderSimulator) (lexeme : TagLexeme)
    → IsWellFormed s
    → IsReady s (request_lexeme c)
    → Suits c lexeme lexeme.token_outline
    → Safely IsFinal (λ _. ⊥) (call c s lexeme)
unfolding call
call-Final c s lexeme w r p = call_on-Final c lexeme.token_outline s lexeme w r p
