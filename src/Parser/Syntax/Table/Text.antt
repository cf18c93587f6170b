-- ===== src/Parser/Syntax/Table/Text.antt =====
-- The tables of src/parser/state_machine/syntax/text/cdata_section.rs, src/parser/state_machine/syntax/text/data.rs, src/parser/state_machine/syntax/text/plaintext.rs.
use lol_html.Html.Tag.Names.{codes}
use lol_html.Parser.Syntax.{
  StateBody, any, byte, cdata_section_bracket_state, cdata_section_state, data_state, emit_eof,
  emit_raw_without_token, emit_text, eoc, eof, leave_cdata, mark_tag_start, reconsume_in, sequence,
  stay, switch_to, tag_open_state, ◌⇒◌, ◌⨟◌,
}
use lol_html.Prelude.{[], ◌∷◌, false}

abbrev pub cdata_section_state_body : StateBody
cdata_section_state_body = record {
  enter_actions = stay;
  arms =
      (byte b']' ⇒ emit_text ⨟ switch_to cdata_section_bracket_state)
      ∷ (eoc ⇒ emit_text ⨟ stay)
      ∷ (eof ⇒ emit_text ⨟ emit_eof ⨟ stay)
      ∷ (any ⇒ stay)
      ∷ [];
}

abbrev pub cdata_section_bracket_state_body : StateBody
cdata_section_bracket_state_body = record {
  enter_actions = stay;
  arms =
      (sequence false (codes "]>") ⇒ emit_raw_without_token ⨟ leave_cdata ⨟ switch_to data_state)
      ∷ (eof ⇒ emit_text ⨟ emit_eof ⨟ stay)
      ∷ (any ⇒ emit_text ⨟ reconsume_in cdata_section_state)
      ∷ [];
}

abbrev pub data_state_body : StateBody
data_state_body = record {
  enter_actions = stay;
  arms =
      (byte b'<' ⇒ emit_text ⨟ mark_tag_start ⨟ switch_to tag_open_state)
      ∷ (eoc ⇒ emit_text ⨟ stay)
      ∷ (eof ⇒ emit_text ⨟ emit_eof ⨟ stay)
      ∷ (any ⇒ stay)
      ∷ [];
}

abbrev pub plaintext_state_body : StateBody
plaintext_state_body = record {
  enter_actions = stay;
  arms = (eoc ⇒ emit_text ⨟ stay) ∷ (eof ⇒ emit_text ⨟ emit_eof ⨟ stay) ∷ (any ⇒ stay) ∷ [];
}
