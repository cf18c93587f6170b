-- ===== src/Parser/Syntax/Table/RawText.antt =====
-- The tables of src/parser/state_machine/syntax/text/rawtext.rs, src/parser/state_machine/syntax/text/rcdata.rs.

use lol_html.Parser.Syntax.{
  StateBody, alpha, any, before_attribute_name_state, byte, create_end_tag, emit_eof, emit_tag,
  emit_text, eoc, eof, finish_tag_name, is_appropriate_end_tag, mark_tag_start,
  next_text_parsing_state, rawtext_end_tag_name_state, rawtext_end_tag_open_state,
  rawtext_less_than_sign_state, rawtext_state, rcdata_end_tag_name_state, rcdata_end_tag_open_state,
  rcdata_less_than_sign_state, rcdata_state, reconsume_in, self_closing_start_tag_state,
  start_token_part, stay, switch_to, unmark_tag_start, update_tag_name_hash, when, whitespace, ◌⇒◌,
  ◌⨟◌,
}
use lol_html.Prelude.{[], ◌∷◌}

abbrev pub rawtext_state_body : StateBody
rawtext_state_body = record {
  enter_actions = stay;
  arms =
      (byte b'<' ⇒ emit_text ⨟ mark_tag_start ⨟ switch_to rawtext_less_than_sign_state)
      ∷ (eoc ⇒ emit_text ⨟ stay)
      ∷ (eof ⇒ emit_text ⨟ emit_eof ⨟ stay)
      ∷ (any ⇒ stay)
      ∷ [];
}

abbrev pub rawtext_less_than_sign_state_body : StateBody
rawtext_less_than_sign_state_body = record {
  enter_actions = stay;
  arms =
      (byte b'/' ⇒ switch_to rawtext_end_tag_open_state)
      ∷ (eof ⇒ emit_text ⨟ emit_eof ⨟ stay)
      ∷ (any ⇒ unmark_tag_start ⨟ emit_text ⨟ reconsume_in rawtext_state)
      ∷ [];
}

abbrev pub rawtext_end_tag_open_state_body : StateBody
rawtext_end_tag_open_state_body = record {
  enter_actions = stay;
  arms =
      (alpha
        ⇒ create_end_tag
          ⨟ start_token_part
          ⨟ update_tag_name_hash
          ⨟ switch_to rawtext_end_tag_name_state)
      ∷ (eof ⇒ emit_text ⨟ emit_eof ⨟ stay)
      ∷ (any ⇒ unmark_tag_start ⨟ emit_text ⨟ reconsume_in rawtext_state)
      ∷ [];
}

abbrev pub rawtext_end_tag_name_state_body : StateBody
rawtext_end_tag_name_state_body = record {
  enter_actions = stay;
  arms =
      (whitespace
        ⇒ when is_appropriate_end_tag (finish_tag_name ⨟ switch_to before_attribute_name_state)
            (unmark_tag_start ⨟ emit_text ⨟ reconsume_in rawtext_state))
      ∷ (byte b'/'
          ⇒ when is_appropriate_end_tag (finish_tag_name ⨟ switch_to self_closing_start_tag_state)
              (unmark_tag_start ⨟ emit_text ⨟ reconsume_in rawtext_state))
      ∷ (byte b'>'
          ⇒ when is_appropriate_end_tag (finish_tag_name ⨟ emit_tag ⨟ next_text_parsing_state)
              (unmark_tag_start ⨟ emit_text ⨟ reconsume_in rawtext_state))
      ∷ (alpha ⇒ update_tag_name_hash ⨟ stay)
      ∷ (eof ⇒ emit_text ⨟ emit_eof ⨟ stay)
      ∷ (any ⇒ unmark_tag_start ⨟ emit_text ⨟ reconsume_in rawtext_state)
      ∷ [];
}

abbrev pub rcdata_state_body : StateBody
rcdata_state_body = record {
  enter_actions = stay;
  arms =
      (byte b'<' ⇒ emit_text ⨟ mark_tag_start ⨟ switch_to rcdata_less_than_sign_state)
      ∷ (eoc ⇒ emit_text ⨟ stay)
      ∷ (eof ⇒ emit_text ⨟ emit_eof ⨟ stay)
      ∷ (any ⇒ stay)
      ∷ [];
}

abbrev pub rcdata_less_than_sign_state_body : StateBody
rcdata_less_than_sign_state_body = record {
  enter_actions = stay;
  arms =
      (byte b'/' ⇒ switch_to rcdata_end_tag_open_state)
      ∷ (eof ⇒ emit_text ⨟ emit_eof ⨟ stay)
      ∷ (any ⇒ unmark_tag_start ⨟ emit_text ⨟ reconsume_in rcdata_state)
      ∷ [];
}

abbrev pub rcdata_end_tag_open_state_body : StateBody
rcdata_end_tag_open_state_body = record {
  enter_actions = stay;
  arms =
      (alpha
        ⇒ create_end_tag
          ⨟ start_token_part
          ⨟ update_tag_name_hash
          ⨟ switch_to rcdata_end_tag_name_state)
      ∷ (eof ⇒ emit_text ⨟ emit_eof ⨟ stay)
      ∷ (any ⇒ unmark_tag_start ⨟ emit_text ⨟ reconsume_in rcdata_state)
      ∷ [];
}

abbrev pub rcdata_end_tag_name_state_body : StateBody
rcdata_end_tag_name_state_body = record {
  enter_actions = stay;
  arms =
      (whitespace
        ⇒ when is_appropriate_end_tag (finish_tag_name ⨟ switch_to before_attribute_name_state)
            (unmark_tag_start ⨟ emit_text ⨟ reconsume_in rcdata_state))
      ∷ (byte b'/'
          ⇒ when is_appropriate_end_tag (finish_tag_name ⨟ switch_to self_closing_start_tag_state)
              (unmark_tag_start ⨟ emit_text ⨟ reconsume_in rcdata_state))
      ∷ (byte b'>'
          ⇒ when is_appropriate_end_tag (finish_tag_name ⨟ emit_tag ⨟ next_text_parsing_state)
              (unmark_tag_start ⨟ emit_text ⨟ reconsume_in rcdata_state))
      ∷ (alpha ⇒ update_tag_name_hash ⨟ stay)
      ∷ (eof ⇒ emit_text ⨟ emit_eof ⨟ stay)
      ∷ (any ⇒ unmark_tag_start ⨟ emit_text ⨟ reconsume_in rcdata_state)
      ∷ [];
}
