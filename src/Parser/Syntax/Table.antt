-- ===== src/Parser/Syntax/Table.antt =====
-- The table of every state: `define_states!` of src/parser/state_machine/syntax/mod.rs.
mod Text
mod RawText
mod ScriptData
mod Escaped
mod Tag
mod Comment
mod Doctype
use lol_html.Parser.Syntax.{State, StateBody}
use Text.{
  cdata_section_state_body, cdata_section_bracket_state_body, data_state_body, plaintext_state_body,
}
use RawText.{
  rawtext_state_body, rawtext_less_than_sign_state_body, rawtext_end_tag_open_state_body,
  rawtext_end_tag_name_state_body, rcdata_state_body, rcdata_less_than_sign_state_body,
  rcdata_end_tag_open_state_body, rcdata_end_tag_name_state_body,
}
use ScriptData.{
  script_data_state_body, script_data_less_than_sign_state_body,
  script_data_end_tag_open_state_body, script_data_end_tag_name_state_body,
}
use Escaped.{
  script_data_escape_start_state_body, script_data_escaped_dash_dash_state_body,
  script_data_escaped_state_body, script_data_escaped_less_than_sign_state_body,
  script_data_escaped_end_tag_open_state_body, script_data_escaped_end_tag_name_state_body,
  script_data_double_escaped_start_state_body, script_data_double_escaped_state_body,
  script_data_double_escaped_dash_dash_state_body,
  script_data_double_escaped_less_than_sign_state_body,
  script_data_double_escaped_end_tag_name_state_body, script_data_double_escaped_end_state_body,
}
use Tag.{
  tag_open_state_body, end_tag_open_state_body, markup_declaration_open_state_body,
  tag_name_state_body, self_closing_start_tag_state_body, before_attribute_name_state_body,
  attribute_name_state_body, after_attribute_name_state_body, before_attribute_value_state_body,
  attribute_value_quoted_state_body, after_attribute_value_quoted_state_body,
  attribute_value_unquoted_state_body,
}
use Comment.{
  bogus_comment_state_body, comment_start_state_body, comment_state_body,
  comment_start_dash_state_body, comment_end_dash_state_body, comment_end_state_body,
  comment_less_than_sign_state_body, comment_less_than_sign_bang_state_body,
  comment_less_than_sign_bang_dash_state_body, comment_less_than_sign_bang_dash_dash_state_body,
  comment_end_bang_state_body,
}
use Doctype.{
  doctype_state_body, before_doctype_name_state_body, doctype_name_state_body,
  after_doctype_name_state_body, after_doctype_public_keyword_state_body,
  after_doctype_system_keyword_state_body, before_doctype_public_identifier_state_body,
  before_doctype_system_identifier_state_body, doctype_public_identifier_state_body,
  doctype_system_identifier_state_body, after_doctype_public_identifier_state_body,
  after_doctype_system_identifier_state_body,
  between_doctype_public_and_system_identifiers_state_body, bogus_doctype_state_body,
}

unfoldable pub body : State → StateBody
body State.cdata_section_state = cdata_section_state_body
body State.cdata_section_bracket_state = cdata_section_bracket_state_body
body State.data_state = data_state_body
body State.plaintext_state = plaintext_state_body
body State.rawtext_state = rawtext_state_body
body State.rawtext_less_than_sign_state = rawtext_less_than_sign_state_body
body State.rawtext_end_tag_open_state = rawtext_end_tag_open_state_body
body State.rawtext_end_tag_name_state = rawtext_end_tag_name_state_body
body State.rcdata_state = rcdata_state_body
body State.rcdata_less_than_sign_state = rcdata_less_than_sign_state_body
body State.rcdata_end_tag_open_state = rcdata_end_tag_open_state_body
body State.rcdata_end_tag_name_state = rcdata_end_tag_name_state_body
body State.script_data_state = script_data_state_body
body State.script_data_less_than_sign_state = script_data_less_than_sign_state_body
body State.script_data_end_tag_open_state = script_data_end_tag_open_state_body
body State.script_data_end_tag_name_state = script_data_end_tag_name_state_body
body State.script_data_escape_start_state = script_data_escape_start_state_body
body State.script_data_escaped_dash_dash_state = script_data_escaped_dash_dash_state_body
body State.script_data_escaped_state = script_data_escaped_state_body
body State.script_data_escaped_less_than_sign_state = script_data_escaped_less_than_sign_state_body
body State.script_data_escaped_end_tag_open_state = script_data_escaped_end_tag_open_state_body
body State.script_data_escaped_end_tag_name_state = script_data_escaped_end_tag_name_state_body
body State.script_data_double_escaped_start_state = script_data_double_escaped_start_state_body
body State.script_data_double_escaped_state = script_data_double_escaped_state_body
body State.script_data_double_escaped_dash_dash_state =
    script_data_double_escaped_dash_dash_state_body
body State.script_data_double_escaped_less_than_sign_state =
    script_data_double_escaped_less_than_sign_state_body
body State.script_data_double_escaped_end_tag_name_state =
    script_data_double_escaped_end_tag_name_state_body
body State.script_data_double_escaped_end_state = script_data_double_escaped_end_state_body
body State.tag_open_state = tag_open_state_body
body State.end_tag_open_state = end_tag_open_state_body
body State.markup_declaration_open_state = markup_declaration_open_state_body
body State.tag_name_state = tag_name_state_body
body State.self_closing_start_tag_state = self_closing_start_tag_state_body
body State.before_attribute_name_state = before_attribute_name_state_body
body State.attribute_name_state = attribute_name_state_body
body State.after_attribute_name_state = after_attribute_name_state_body
body State.before_attribute_value_state = before_attribute_value_state_body
body State.attribute_value_quoted_state = attribute_value_quoted_state_body
body State.after_attribute_value_quoted_state = after_attribute_value_quoted_state_body
body State.attribute_value_unquoted_state = attribute_value_unquoted_state_body
body State.bogus_comment_state = bogus_comment_state_body
body State.comment_start_state = comment_start_state_body
body State.comment_state = comment_state_body
body State.comment_start_dash_state = comment_start_dash_state_body
body State.comment_end_dash_state = comment_end_dash_state_body
body State.comment_end_state = comment_end_state_body
body State.comment_less_than_sign_state = comment_less_than_sign_state_body
body State.comment_less_than_sign_bang_state = comment_less_than_sign_bang_state_body
body State.comment_less_than_sign_bang_dash_state = comment_less_than_sign_bang_dash_state_body
body State.comment_less_than_sign_bang_dash_dash_state =
    comment_less_than_sign_bang_dash_dash_state_body
body State.comment_end_bang_state = comment_end_bang_state_body
body State.doctype_state = doctype_state_body
body State.before_doctype_name_state = before_doctype_name_state_body
body State.doctype_name_state = doctype_name_state_body
body State.after_doctype_name_state = after_doctype_name_state_body
body State.after_doctype_public_keyword_state = after_doctype_public_keyword_state_body
body State.after_doctype_system_keyword_state = after_doctype_system_keyword_state_body
body State.before_doctype_public_identifier_state = before_doctype_public_identifier_state_body
body State.before_doctype_system_identifier_state = before_doctype_system_identifier_state_body
body State.doctype_public_identifier_state = doctype_public_identifier_state_body
body State.doctype_system_identifier_state = doctype_system_identifier_state_body
body State.after_doctype_public_identifier_state = after_doctype_public_identifier_state_body
body State.after_doctype_system_identifier_state = after_doctype_system_identifier_state_body
body State.between_doctype_public_and_system_identifiers_state =
    between_doctype_public_and_system_identifiers_state_body
body State.bogus_doctype_state = bogus_doctype_state_body
