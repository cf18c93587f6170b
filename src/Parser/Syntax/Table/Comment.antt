-- ===== src/Parser/Syntax/Table/Comment.antt =====
-- The tables of src/parser/state_machine/syntax/comment.rs.

use lol_html.Parser.Syntax.{
  StateBody, any, byte, comment_end_bang_state, comment_end_dash_state, comment_end_state,
  comment_less_than_sign_bang_dash_dash_state, comment_less_than_sign_bang_dash_state,
  comment_less_than_sign_bang_state, comment_less_than_sign_state, comment_start_dash_state,
  comment_state, create_comment, data_state, emit_current_token, emit_current_token_and_eof, eof,
  mark_comment_text_end, reconsume_in, shift_comment_text_end_by, start_token_part, stay, switch_to,
  ◌⇒◌, ◌⨟◌,
}
use lol_html.Prelude.{[], ◌∷◌}

abbrev pub bogus_comment_state_body : StateBody
bogus_comment_state_body = record {
  enter_actions = stay;
  arms =
      (byte b'>' ⇒ mark_comment_text_end ⨟ emit_current_token ⨟ switch_to data_state)
      ∷ (eof ⇒ mark_comment_text_end ⨟ emit_current_token_and_eof ⨟ stay)
      ∷ (any ⇒ stay)
      ∷ [];
}

abbrev pub comment_start_state_body : StateBody
comment_start_state_body = record {
  enter_actions = create_comment ⨟ start_token_part ⨟ stay;
  arms =
      (byte b'-' ⇒ mark_comment_text_end ⨟ switch_to comment_start_dash_state)
      ∷ (byte b'>' ⇒ mark_comment_text_end ⨟ emit_current_token ⨟ switch_to data_state)
      ∷ (eof ⇒ mark_comment_text_end ⨟ emit_current_token_and_eof ⨟ stay)
      ∷ (any ⇒ reconsume_in comment_state)
      ∷ [];
}

abbrev pub comment_state_body : StateBody
comment_state_body = record {
  enter_actions = stay;
  arms =
      (byte b'<' ⇒ switch_to comment_less_than_sign_state)
      ∷ (byte b'-' ⇒ mark_comment_text_end ⨟ switch_to comment_end_dash_state)
      ∷ (eof ⇒ mark_comment_text_end ⨟ emit_current_token_and_eof ⨟ stay)
      ∷ (any ⇒ stay)
      ∷ [];
}

abbrev pub comment_start_dash_state_body : StateBody
comment_start_dash_state_body = record {
  enter_actions = stay;
  arms =
      (byte b'-' ⇒ switch_to comment_end_state)
      ∷ (byte b'>' ⇒ emit_current_token ⨟ switch_to data_state)
      ∷ (eof ⇒ emit_current_token_and_eof ⨟ stay)
      ∷ (any ⇒ reconsume_in comment_state)
      ∷ [];
}

abbrev pub comment_end_dash_state_body : StateBody
comment_end_dash_state_body = record {
  enter_actions = stay;
  arms =
      (byte b'-' ⇒ switch_to comment_end_state)
      ∷ (eof ⇒ emit_current_token_and_eof ⨟ stay)
      ∷ (any ⇒ reconsume_in comment_state)
      ∷ [];
}

abbrev pub comment_end_state_body : StateBody
comment_end_state_body = record {
  enter_actions = stay;
  arms =
      (byte b'>' ⇒ emit_current_token ⨟ switch_to data_state)
      ∷ (byte b'!' ⇒ switch_to comment_end_bang_state)
      ∷ (byte b'-' ⇒ shift_comment_text_end_by 1 ⨟ stay)
      ∷ (eof ⇒ emit_current_token_and_eof ⨟ stay)
      ∷ (any ⇒ shift_comment_text_end_by 2 ⨟ reconsume_in comment_state)
      ∷ [];
}

abbrev pub comment_less_than_sign_state_body : StateBody
comment_less_than_sign_state_body = record {
  enter_actions = stay;
  arms =
      (byte b'!' ⇒ switch_to comment_less_than_sign_bang_state)
      ∷ (byte b'>' ⇒ stay)
      ∷ (eof ⇒ reconsume_in comment_state)
      ∷ (any ⇒ reconsume_in comment_state)
      ∷ [];
}

abbrev pub comment_less_than_sign_bang_state_body : StateBody
comment_less_than_sign_bang_state_body = record {
  enter_actions = stay;
  arms =
      (byte b'-' ⇒ switch_to comment_less_than_sign_bang_dash_state)
      ∷ (eof ⇒ reconsume_in comment_state)
      ∷ (any ⇒ reconsume_in comment_state)
      ∷ [];
}

abbrev pub comment_less_than_sign_bang_dash_state_body : StateBody
comment_less_than_sign_bang_dash_state_body = record {
  enter_actions = stay;
  arms =
      (byte b'-' ⇒ switch_to comment_less_than_sign_bang_dash_dash_state)
      ∷ (eof ⇒ reconsume_in comment_end_dash_state)
      ∷ (any ⇒ reconsume_in comment_end_dash_state)
      ∷ [];
}

abbrev pub comment_less_than_sign_bang_dash_dash_state_body : StateBody
comment_less_than_sign_bang_dash_dash_state_body = record {
  enter_actions = stay;
  arms = (eof ⇒ reconsume_in comment_end_state) ∷ (any ⇒ reconsume_in comment_end_state) ∷ [];
}

abbrev pub comment_end_bang_state_body : StateBody
comment_end_bang_state_body = record {
  enter_actions = stay;
  arms =
      (byte b'-' ⇒ shift_comment_text_end_by 3 ⨟ switch_to comment_end_dash_state)
      ∷ (byte b'>' ⇒ emit_current_token ⨟ switch_to data_state)
      ∷ (eof ⇒ emit_current_token_and_eof ⨟ stay)
      ∷ (any ⇒ shift_comment_text_end_by 3 ⨟ reconsume_in comment_state)
      ∷ [];
}
