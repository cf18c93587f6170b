-- ===== src/Rewriter/HandlersDispatcher/Matching.antt =====
-- Which kinds of tokens are captured for the active handlers.

use lol_html.Prelude.{◌≡◌}
use lol_html.Rewriter.HandlerVec.Counts.{IsCounted, any_active, has_active-any_active}
use lol_html.Rewriter.HandlersDispatcher.{ContentHandlersDispatcher, get_token_capture_flags}

-- Every vector's count is the sum of its items' counts.
pub record IsConsistent {H : Type 0} (d : ContentHandlersDispatcher H) : Type 0 where
  pub doctype : IsCounted d.doctype_handlers
  pub comment : IsCounted d.comment_handlers
  pub text : IsCounted d.text_handlers
  pub end_tag : IsCounted d.end_tag_handlers
  pub element : IsCounted d.element_handlers
  pub end_ : IsCounted d.end_handlers

-- Where the counts are consistent, a kind of token is captured exactly if a handler for that kind is
-- active.
pub get_token_capture_flags-any_active :
    {H : Type 0} (d : ContentHandlersDispatcher H)
    → IsConsistent d
    → get_token_capture_flags d ≡ record {
      text = any_active d.text_handlers.items;
      comments = any_active d.comment_handlers.items;
      next_start_tag = any_active d.element_handlers.items;
      next_end_tag = any_active d.end_tag_handlers.items;
      doctypes = any_active d.doctype_handlers.items;
    }
unfolding get_token_capture_flags
get_token_capture_flags-any_active d c = rw (
  has_active-any_active d.text_handlers c.text,
  has_active-any_active d.comment_handlers c.comment,
  has_active-any_active d.element_handlers c.element,
  has_active-any_active d.end_tag_handlers c.end_tag,
  has_active-any_active d.doctype_handlers c.doctype,
)
