-- ===== src/Parser/Syntax/Table/ScriptData.antt =====
-- The tables of src/parser/state_machine/syntax/text/script_data/mod.rs.

use lol_html.Parser.Syntax.{
  StateBody, alpha, any, before_attribute_name_state, byte, create_end_tag, emit_eof, emit_tag,
  emit_text, eoc, eof, finish_tag_name, is_appropriate_end_tag, mark_tag_start,
  next_text_parsing_state, reconsume_in, script_data_end_tag_name_state,
  script_data_end_tag_open_state, script_data_escape_start_state, script_data_less_than_sign_state,
  script_data_state, self_closing_start_tag_state, start_token_part, stay, switch_to,
  unmark_tag_start, update_tag_name_hash, when, whitespace, ◌⇒◌, ◌⨟◌,
}
use lol_html.Prelude.{[], ◌∷◌}

abbrev pub script_data_state_body : StateBody
script_data_state_body = record {
  enter_actions = stay;
  arms =
      (byte b'<' ⇒ emit_text ⨟ mark_tag_start ⨟ switch_to script_data_less_than_sign_state)
      ∷ (eoc ⇒ emit_text ⨟ stay)
      ∷ (eof ⇒ emit_text ⨟ emit_eof ⨟ stay)
      ∷ (any ⇒ stay)
      ∷ [];
}

abbrev pub script_data_less_than_sign_state_body : StateBody
script_data_less_than_sign_state_body = record {
  enter_actions = stay;
  arms =
      (byte b'/' ⇒ switch_to script_data_end_tag_open_state)
      ∷ (byte b'!' ⇒ unmark_tag_start ⨟ switch_to script_data_escape_start_state)
      ∷ (eof ⇒ emit_text ⨟ emit_eof ⨟ stay)
      ∷ (any ⇒ unmark_tag_start ⨟ emit_text ⨟ reconsume_in script_data_state)
      ∷ [];
}

abbrev pub script_data_end_tag_open_state_body : StateBody
script_data_end_tag_open_state_body = record {
  enter_actions = stay;
  arms =
      (alpha
        ⇒ create_end_tag
          ⨟ start_token_part
          ⨟ update_tag_name_hash
          ⨟ switch_to script_data_end_tag_name_state)
      ∷ (eof ⇒ emit_text ⨟ emit_eof ⨟ stay)
      ∷ (any ⇒ unmark_tag_start ⨟ emit_text ⨟ reconsume_in script_data_state)
      ∷ [];
}

abbrev pub script_data_end_tag_name_state_body : StateBody
script_data_end_tag_name_state_body = record {
  enter_actions = stay;
  arms =
      (whitespace
        ⇒ when is_appropriate_end_tag (finish_tag_name ⨟ switch_to before_attribute_name_state)
            (unmark_tag_start ⨟ emit_text ⨟ reconsume_in script_data_state))
      ∷ (byte b'/'
          ⇒ when is_appropriate_end_tag (finish_tag_name ⨟ switch_to self_closing_start_tag_state)
              (unmark_tag_start ⨟ emit_text ⨟ reconsume_in script_data_state))
      ∷ (byte b'>'
          ⇒ when is_appropriate_end_tag (finish_tag_name ⨟ emit_tag ⨟ next_text_parsing_state)
              (unmark_tag_start ⨟ emit_text ⨟ reconsume_in script_data_state))
      ∷ (alpha ⇒ update_tag_name_hash ⨟ stay)
      ∷ (eof ⇒ emit_text ⨟ emit_eof ⨟ stay)
      ∷ (any ⇒ unmark_tag_start ⨟ emit_text ⨟ reconsume_in script_data_state)
      ∷ [];
}
