-- ===== src/Parser/Syntax/Table/Doctype.antt =====
-- The tables of src/parser/state_machine/syntax/doctype.rs.
use lol_html.Html.Tag.Names.{codes}
use lol_html.Parser.Syntax.{
  StateBody, after_doctype_name_state, after_doctype_public_identifier_state,
  after_doctype_public_keyword_state, after_doctype_system_identifier_state,
  after_doctype_system_keyword_state, any, before_doctype_name_state,
  before_doctype_public_identifier_state, before_doctype_system_identifier_state,
  between_doctype_public_and_system_identifiers_state, bogus_doctype_state, byte, closing_quote,
  create_doctype, data_state, doctype_name_state, doctype_public_identifier_state,
  doctype_system_identifier_state, emit_current_token, emit_current_token_and_eof, eof,
  finish_doctype_name, finish_doctype_public_id, finish_doctype_system_id, reconsume_in, sequence,
  set_closing_quote_to_double, set_closing_quote_to_single, set_force_quirks, start_token_part,
  stay, switch_to, whitespace, ◌⇒◌, ◌⨟◌,
}
use lol_html.Prelude.{[], ◌∷◌, true}

abbrev pub doctype_state_body : StateBody
doctype_state_body = record {
  enter_actions = stay;
  arms =
      (whitespace ⇒ switch_to before_doctype_name_state)
      ∷ (byte b'>' ⇒ create_doctype ⨟ set_force_quirks ⨟ emit_current_token ⨟ switch_to data_state)
      ∷ (eof ⇒ create_doctype ⨟ set_force_quirks ⨟ emit_current_token_and_eof ⨟ stay)
      ∷ (any ⇒ reconsume_in before_doctype_name_state)
      ∷ [];
}

abbrev pub before_doctype_name_state_body : StateBody
before_doctype_name_state_body = record {
  enter_actions = stay;
  arms =
      (whitespace ⇒ stay)
      ∷ (byte b'>' ⇒ create_doctype ⨟ set_force_quirks ⨟ emit_current_token ⨟ switch_to data_state)
      ∷ (eof ⇒ create_doctype ⨟ set_force_quirks ⨟ emit_current_token_and_eof ⨟ stay)
      ∷ (any ⇒ create_doctype ⨟ start_token_part ⨟ switch_to doctype_name_state)
      ∷ [];
}

abbrev pub doctype_name_state_body : StateBody
doctype_name_state_body = record {
  enter_actions = stay;
  arms =
      (whitespace ⇒ finish_doctype_name ⨟ switch_to after_doctype_name_state)
      ∷ (byte b'>' ⇒ finish_doctype_name ⨟ emit_current_token ⨟ switch_to data_state)
      ∷ (eof ⇒ finish_doctype_name ⨟ set_force_quirks ⨟ emit_current_token_and_eof ⨟ stay)
      ∷ (any ⇒ stay)
      ∷ [];
}

abbrev pub after_doctype_name_state_body : StateBody
after_doctype_name_state_body = record {
  enter_actions = stay;
  arms =
      (whitespace ⇒ stay)
      ∷ (byte b'>' ⇒ emit_current_token ⨟ switch_to data_state)
      ∷ (eof ⇒ set_force_quirks ⨟ emit_current_token_and_eof ⨟ stay)
      ∷ (sequence true (codes "PUBLIC") ⇒ switch_to after_doctype_public_keyword_state)
      ∷ (sequence true (codes "SYSTEM") ⇒ switch_to after_doctype_system_keyword_state)
      ∷ (any ⇒ set_force_quirks ⨟ switch_to bogus_doctype_state)
      ∷ [];
}

abbrev pub after_doctype_public_keyword_state_body : StateBody
after_doctype_public_keyword_state_body = record {
  enter_actions = stay;
  arms =
      (whitespace ⇒ switch_to before_doctype_public_identifier_state)
      ∷ (byte b'"' ⇒ set_closing_quote_to_double ⨟ switch_to doctype_public_identifier_state)
      ∷ (byte b'\'' ⇒ set_closing_quote_to_single ⨟ switch_to doctype_public_identifier_state)
      ∷ (byte b'>' ⇒ set_force_quirks ⨟ emit_current_token ⨟ switch_to data_state)
      ∷ (eof ⇒ set_force_quirks ⨟ emit_current_token_and_eof ⨟ stay)
      ∷ (any ⇒ set_force_quirks ⨟ switch_to bogus_doctype_state)
      ∷ [];
}

abbrev pub after_doctype_system_keyword_state_body : StateBody
after_doctype_system_keyword_state_body = record {
  enter_actions = stay;
  arms =
      (whitespace ⇒ switch_to before_doctype_system_identifier_state)
      ∷ (byte b'"' ⇒ set_closing_quote_to_double ⨟ switch_to doctype_system_identifier_state)
      ∷ (byte b'\'' ⇒ set_closing_quote_to_single ⨟ switch_to doctype_system_identifier_state)
      ∷ (byte b'>' ⇒ set_force_quirks ⨟ emit_current_token ⨟ switch_to data_state)
      ∷ (eof ⇒ set_force_quirks ⨟ emit_current_token_and_eof ⨟ stay)
      ∷ (any ⇒ set_force_quirks ⨟ switch_to bogus_doctype_state)
      ∷ [];
}

abbrev pub before_doctype_public_identifier_state_body : StateBody
before_doctype_public_identifier_state_body = record {
  enter_actions = stay;
  arms =
      (whitespace ⇒ stay)
      ∷ (byte b'"' ⇒ set_closing_quote_to_double ⨟ switch_to doctype_public_identifier_state)
      ∷ (byte b'\'' ⇒ set_closing_quote_to_single ⨟ switch_to doctype_public_identifier_state)
      ∷ (byte b'>' ⇒ set_force_quirks ⨟ emit_current_token ⨟ switch_to data_state)
      ∷ (eof ⇒ set_force_quirks ⨟ emit_current_token_and_eof ⨟ stay)
      ∷ (any ⇒ set_force_quirks ⨟ switch_to bogus_doctype_state)
      ∷ [];
}

abbrev pub before_doctype_system_identifier_state_body : StateBody
before_doctype_system_identifier_state_body = record {
  enter_actions = stay;
  arms =
      (whitespace ⇒ stay)
      ∷ (byte b'"' ⇒ set_closing_quote_to_double ⨟ switch_to doctype_system_identifier_state)
      ∷ (byte b'\'' ⇒ set_closing_quote_to_single ⨟ switch_to doctype_system_identifier_state)
      ∷ (byte b'>' ⇒ set_force_quirks ⨟ emit_current_token ⨟ switch_to data_state)
      ∷ (eof ⇒ set_force_quirks ⨟ emit_current_token_and_eof ⨟ stay)
      ∷ (any ⇒ set_force_quirks ⨟ switch_to bogus_doctype_state)
      ∷ [];
}

abbrev pub doctype_public_identifier_state_body : StateBody
doctype_public_identifier_state_body = record {
  enter_actions = start_token_part ⨟ stay;
  arms =
      (closing_quote ⇒ finish_doctype_public_id ⨟ switch_to after_doctype_public_identifier_state)
      ∷ (byte b'>'
          ⇒ finish_doctype_public_id ⨟ set_force_quirks ⨟ emit_current_token ⨟ switch_to data_state)
      ∷ (eof ⇒ finish_doctype_public_id ⨟ set_force_quirks ⨟ emit_current_token_and_eof ⨟ stay)
      ∷ (any ⇒ stay)
      ∷ [];
}

abbrev pub doctype_system_identifier_state_body : StateBody
doctype_system_identifier_state_body = record {
  enter_actions = start_token_part ⨟ stay;
  arms =
      (closing_quote ⇒ finish_doctype_system_id ⨟ switch_to after_doctype_system_identifier_state)
      ∷ (byte b'>'
          ⇒ finish_doctype_system_id ⨟ set_force_quirks ⨟ emit_current_token ⨟ switch_to data_state)
      ∷ (eof ⇒ finish_doctype_system_id ⨟ set_force_quirks ⨟ emit_current_token_and_eof ⨟ stay)
      ∷ (any ⇒ stay)
      ∷ [];
}

abbrev pub after_doctype_public_identifier_state_body : StateBody
after_doctype_public_identifier_state_body = record {
  enter_actions = stay;
  arms =
      (whitespace ⇒ switch_to between_doctype_public_and_system_identifiers_state)
      ∷ (byte b'>' ⇒ emit_current_token ⨟ switch_to data_state)
      ∷ (byte b'"' ⇒ set_closing_quote_to_double ⨟ switch_to doctype_system_identifier_state)
      ∷ (byte b'\'' ⇒ set_closing_quote_to_single ⨟ switch_to doctype_system_identifier_state)
      ∷ (eof ⇒ set_force_quirks ⨟ emit_current_token_and_eof ⨟ stay)
      ∷ (any ⇒ set_force_quirks ⨟ switch_to bogus_doctype_state)
      ∷ [];
}

abbrev pub after_doctype_system_identifier_state_body : StateBody
after_doctype_system_identifier_state_body = record {
  enter_actions = stay;
  arms =
      (whitespace ⇒ stay)
      ∷ (byte b'>' ⇒ emit_current_token ⨟ switch_to data_state)
      ∷ (eof ⇒ set_force_quirks ⨟ emit_current_token_and_eof ⨟ stay)
      ∷ (any ⇒ switch_to bogus_doctype_state)
      ∷ [];
}

abbrev pub between_doctype_public_and_system_identifiers_state_body : StateBody
between_doctype_public_and_system_identifiers_state_body = record {
  enter_actions = stay;
  arms =
      (whitespace ⇒ stay)
      ∷ (byte b'>' ⇒ emit_current_token ⨟ switch_to data_state)
      ∷ (byte b'"' ⇒ set_closing_quote_to_double ⨟ switch_to doctype_system_identifier_state)
      ∷ (byte b'\'' ⇒ set_closing_quote_to_single ⨟ switch_to doctype_system_identifier_state)
      ∷ (eof ⇒ set_force_quirks ⨟ emit_current_token_and_eof ⨟ stay)
      ∷ (any ⇒ set_force_quirks ⨟ switch_to bogus_doctype_state)
      ∷ [];
}

abbrev pub bogus_doctype_state_body : StateBody
bogus_doctype_state_body = record {
  enter_actions = stay;
  arms =
      (byte b'>' ⇒ emit_current_token ⨟ switch_to data_state)
      ∷ (eof ⇒ emit_current_token_and_eof ⨟ stay)
      ∷ (any ⇒ stay)
      ∷ [];
}
