-- ===== src/Parser/Directive.antt =====
-- The errors and directives that end a parsing loop: src/parser/state_machine/mod.rs, and
-- `RewritingError` of src/rewriter/mod.rs. A handler's error is an opaque number.
use lol_html.Html.LocalName.{LocalNameHash}
use lol_html.Html.TextType.{TextType}
use lol_html.Parser.Simulator.{TreeBuilderFeedback}
use lol_html.Parser.Simulator.Guard.{AmbiguityError}
use lol_html.Prelude.{ℕ, Bool}

pub data RewritingError : Type 0 where
  memory_limit_exceeded : RewritingError
  parsing_ambiguity : AmbiguityError → RewritingError
  content_handler_error : ℕ → RewritingError

pub data ParserDirective : Type 0 where
  where_possible_scan_for_tags_only lex : ParserDirective

pub data FeedbackDirective : Type 0 where
  apply_unhandled_feedback : TreeBuilderFeedback → FeedbackDirective
  skip none : FeedbackDirective

pub record StateMachineBookmark : Type 0 where
  pub cdata_allowed : Bool
  pub text_type : TextType
  pub last_start_tag_name_hash : LocalNameHash
  pub pos : ℕ
  pub feedback_directive : FeedbackDirective
