-- ===== src/Parser/Syntax/Table/Tag.antt =====
-- The tables of src/parser/state_machine/syntax/tag/mod.rs, src/parser/state_machine/syntax/tag/attributes.rs.
use lol_html.Html.Tag.Names.{codes}
use lol_html.Parser.Syntax.{
  StateBody, after_attribute_name_state, after_attribute_value_quoted_state, alpha, any,
  attribute_name_state, attribute_value_quoted_state, attribute_value_unquoted_state,
  before_attribute_name_state, before_attribute_value_state, bogus_comment_state, byte,
  cdata_allowed, cdata_section_state, closing_quote, comment_start_state, create_comment,
  create_end_tag, create_start_tag, data_state, doctype_state, emit_eof, emit_raw_without_token,
  emit_raw_without_token_and_eof, emit_tag, emit_text, end_tag_open_state, enter_cdata, eof,
  finish_attr, finish_attr_name, finish_attr_value, finish_tag_name, mark_as_self_closing,
  markup_declaration_open_state, next_text_parsing_state, reconsume_in,
  self_closing_start_tag_state, sequence, set_closing_quote_to_double, set_closing_quote_to_single,
  start_attr, start_token_part, stay, switch_to, tag_name_state, unmark_tag_start,
  update_tag_name_hash, when, whitespace, ◌⇒◌, ◌⨟◌,
}
use lol_html.Prelude.{[], ◌∷◌, false, true}

abbrev pub tag_open_state_body : StateBody
tag_open_state_body = record {
  enter_actions = stay;
  arms =
      (byte b'!' ⇒ unmark_tag_start ⨟ switch_to markup_declaration_open_state)
      ∷ (byte b'/' ⇒ switch_to end_tag_open_state)
      ∷ (alpha
          ⇒ create_start_tag ⨟ start_token_part ⨟ update_tag_name_hash ⨟ switch_to tag_name_state)
      ∷ (byte b'?'
          ⇒ unmark_tag_start ⨟ create_comment ⨟ start_token_part ⨟ switch_to bogus_comment_state)
      ∷ (eof ⇒ emit_text ⨟ emit_eof ⨟ stay)
      ∷ (any ⇒ unmark_tag_start ⨟ emit_text ⨟ reconsume_in data_state)
      ∷ [];
}

abbrev pub end_tag_open_state_body : StateBody
end_tag_open_state_body = record {
  enter_actions = stay;
  arms =
      (alpha ⇒ create_end_tag ⨟ start_token_part ⨟ update_tag_name_hash ⨟ switch_to tag_name_state)
      ∷ (byte b'>' ⇒ unmark_tag_start ⨟ emit_raw_without_token ⨟ switch_to data_state)
      ∷ (eof ⇒ emit_text ⨟ emit_eof ⨟ stay)
      ∷ (any ⇒ create_comment ⨟ start_token_part ⨟ reconsume_in bogus_comment_state)
      ∷ [];
}

abbrev pub markup_declaration_open_state_body : StateBody
markup_declaration_open_state_body = record {
  enter_actions = start_token_part ⨟ stay;
  arms =
      (sequence false (codes "--") ⇒ switch_to comment_start_state)
      ∷ (sequence true (codes "DOCTYPE") ⇒ switch_to doctype_state)
      ∷ (sequence false (codes "[CDATA[")
          ⇒ when cdata_allowed
              (emit_raw_without_token ⨟ enter_cdata ⨟ switch_to cdata_section_state)
              (create_comment ⨟ switch_to bogus_comment_state))
      ∷ (eof ⇒ create_comment ⨟ reconsume_in bogus_comment_state)
      ∷ (any ⇒ create_comment ⨟ reconsume_in bogus_comment_state)
      ∷ [];
}

abbrev pub tag_name_state_body : StateBody
tag_name_state_body = record {
  enter_actions = stay;
  arms =
      (whitespace ⇒ finish_tag_name ⨟ switch_to before_attribute_name_state)
      ∷ (byte b'/' ⇒ finish_tag_name ⨟ switch_to self_closing_start_tag_state)
      ∷ (byte b'>' ⇒ finish_tag_name ⨟ emit_tag ⨟ next_text_parsing_state)
      ∷ (eof ⇒ emit_raw_without_token_and_eof ⨟ stay)
      ∷ (any ⇒ update_tag_name_hash ⨟ stay)
      ∷ [];
}

abbrev pub self_closing_start_tag_state_body : StateBody
self_closing_start_tag_state_body = record {
  enter_actions = stay;
  arms =
      (byte b'>' ⇒ mark_as_self_closing ⨟ emit_tag ⨟ next_text_parsing_state)
      ∷ (eof ⇒ emit_raw_without_token_and_eof ⨟ stay)
      ∷ (any ⇒ reconsume_in before_attribute_name_state)
      ∷ [];
}

abbrev pub before_attribute_name_state_body : StateBody
before_attribute_name_state_body = record {
  enter_actions = stay;
  arms =
      (whitespace ⇒ stay)
      ∷ (byte b'/' ⇒ switch_to self_closing_start_tag_state)
      ∷ (byte b'>' ⇒ emit_tag ⨟ next_text_parsing_state)
      ∷ (eof ⇒ emit_raw_without_token_and_eof ⨟ stay)
      ∷ (any ⇒ start_attr ⨟ switch_to attribute_name_state)
      ∷ [];
}

abbrev pub attribute_name_state_body : StateBody
attribute_name_state_body = record {
  enter_actions = stay;
  arms =
      (whitespace ⇒ finish_attr_name ⨟ switch_to after_attribute_name_state)
      ∷ (byte b'/' ⇒ finish_attr_name ⨟ finish_attr ⨟ switch_to self_closing_start_tag_state)
      ∷ (byte b'>' ⇒ finish_attr_name ⨟ finish_attr ⨟ emit_tag ⨟ next_text_parsing_state)
      ∷ (byte b'=' ⇒ finish_attr_name ⨟ switch_to before_attribute_value_state)
      ∷ (eof ⇒ emit_raw_without_token_and_eof ⨟ stay)
      ∷ (any ⇒ stay)
      ∷ [];
}

abbrev pub after_attribute_name_state_body : StateBody
after_attribute_name_state_body = record {
  enter_actions = stay;
  arms =
      (whitespace ⇒ stay)
      ∷ (byte b'/' ⇒ finish_attr ⨟ switch_to self_closing_start_tag_state)
      ∷ (byte b'=' ⇒ switch_to before_attribute_value_state)
      ∷ (byte b'>' ⇒ finish_attr ⨟ emit_tag ⨟ next_text_parsing_state)
      ∷ (eof ⇒ emit_raw_without_token_and_eof ⨟ stay)
      ∷ (any ⇒ finish_attr ⨟ start_attr ⨟ switch_to attribute_name_state)
      ∷ [];
}

abbrev pub before_attribute_value_state_body : StateBody
before_attribute_value_state_body = record {
  enter_actions = stay;
  arms =
      (whitespace ⇒ stay)
      ∷ (byte b'"' ⇒ set_closing_quote_to_double ⨟ switch_to attribute_value_quoted_state)
      ∷ (byte b'\'' ⇒ set_closing_quote_to_single ⨟ switch_to attribute_value_quoted_state)
      ∷ (byte b'>' ⇒ finish_attr ⨟ emit_tag ⨟ switch_to data_state)
      ∷ (eof ⇒ emit_raw_without_token_and_eof ⨟ stay)
      ∷ (any ⇒ reconsume_in attribute_value_unquoted_state)
      ∷ [];
}

abbrev pub attribute_value_quoted_state_body : StateBody
attribute_value_quoted_state_body = record {
  enter_actions = start_token_part ⨟ stay;
  arms =
      (closing_quote
        ⇒ finish_attr_value ⨟ finish_attr ⨟ switch_to after_attribute_value_quoted_state)
      ∷ (eof ⇒ emit_raw_without_token_and_eof ⨟ stay)
      ∷ (any ⇒ stay)
      ∷ [];
}

abbrev pub after_attribute_value_quoted_state_body : StateBody
after_attribute_value_quoted_state_body = record {
  enter_actions = stay;
  arms =
      (whitespace ⇒ switch_to before_attribute_name_state)
      ∷ (byte b'/' ⇒ switch_to self_closing_start_tag_state)
      ∷ (byte b'>' ⇒ emit_tag ⨟ next_text_parsing_state)
      ∷ (eof ⇒ emit_raw_without_token_and_eof ⨟ stay)
      ∷ (any ⇒ reconsume_in before_attribute_name_state)
      ∷ [];
}

abbrev pub attribute_value_unquoted_state_body : StateBody
attribute_value_unquoted_state_body = record {
  enter_actions = start_token_part ⨟ stay;
  arms =
      (whitespace ⇒ finish_attr_value ⨟ finish_attr ⨟ switch_to before_attribute_name_state)
      ∷ (byte b'>' ⇒ finish_attr_value ⨟ finish_attr ⨟ emit_tag ⨟ next_text_parsing_state)
      ∷ (eof ⇒ emit_raw_without_token_and_eof ⨟ stay)
      ∷ (any ⇒ stay)
      ∷ [];
}
