-- ===== src/Rewriter/HandlersDispatcher.antt =====
-- src/rewriter/handlers_dispatcher.rs: `ContentHandlersDispatcher`, which handlers of content are
-- active; `ElementDescriptor` is in src/rewriter/rewrite_controller.rs. `H` stands for the boxed
-- closures, of whatever kind their vector holds. A hash set of locators is a list of them.
pub mod Matching
pub mod Restoring
pub mod Users
use mathlib.Core.Option
use lol_html.Base.Checked.{checked_add, checked_sub}
use lol_html.Base.Outcome.{Outcome, ok, ◌>>=◌}
use lol_html.Prelude.{
  ℕ, ◌-◌, Bool, true, false, List, [], ◌∷◌, ltb, Option, none, some, if◌then◌else◌,
}
use lol_html.Rewriter.HandlerVec.{
  HandlerVec, default_handler_vec, push, len, inc_user_count, dec_user_count, has_active,
}

pub record SelectorHandlersLocator : Type 0 where
  pub element_handler_idx : Option ℕ
  pub comment_handler_idx : Option ℕ
  pub text_handler_idx : Option ℕ

pub record MatchInfo : Type 0 where
  pub payload : SelectorHandlersLocator
  pub with_content : Bool

pub record ElementDescriptor : Type 0 where
  pub matched_content_handlers : List SelectorHandlersLocator
  pub end_tag_handler_idx : Option ℕ
  pub remove_content : Bool

-- `bitflags!` of src/rewritable_units/token_capturer.
pub record TokenCaptureFlags : Type 0 where
  pub text : Bool
  pub comments : Bool
  pub next_start_tag : Bool
  pub next_end_tag : Bool
  pub doctypes : Bool

pub record DocumentContentHandlers (H : Type 0) : Type 0 where
  pub doctype : Option H
  pub comments : Option H
  pub text : Option H
  pub end_ : Option H

pub record ElementContentHandlers (H : Type 0) : Type 0 where
  pub element : Option H
  pub comments : Option H
  pub text : Option H

pub record ContentHandlersDispatcher (H : Type 0) : Type 0 where
  pub doctype_handlers : HandlerVec H
  pub comment_handlers : HandlerVec H
  pub text_handlers : HandlerVec H
  pub end_tag_handlers : HandlerVec H
  pub element_handlers : HandlerVec H
  pub end_handlers : HandlerVec H
  pub next_element_can_have_content : Bool
  pub matched_elements_with_removed_content : ℕ

module _ {H E : Type 0} where
  -- `if let Some(handler) = … { v.push(handler, true) }`.
  unfoldable pub push_some : Option H → HandlerVec H → Outcome E (HandlerVec H)
  push_some none v = ok v
  push_some (some handler) v = push handler true v

  unfoldable pub add_document_content_handlers :
      DocumentContentHandlers H
      → ContentHandlersDispatcher H
      → Outcome E (ContentHandlersDispatcher H)
  unfolding push_some
  add_document_content_handlers handlers d =
      push_some handlers.doctype d.doctype_handlers >>= λ doctype_handlers.
      push_some handlers.comments d.comment_handlers >>= λ comment_handlers.
      push_some handlers.text d.text_handlers >>= λ text_handlers.
      push_some handlers.end_ d.end_handlers >>= λ end_handlers. ok (record d {
        doctype_handlers = doctype_handlers;
        comment_handlers = comment_handlers;
        text_handlers = text_handlers;
        end_handlers = end_handlers;
      })

  -- `push(h, false)` and the index of what was pushed.
  unfoldable pub push_located : Option H → HandlerVec H → Outcome E (HandlerVec H × Option ℕ)
  push_located none v = ok (v, none)
  push_located (some handler) v =
      push handler false v >>= λ v'. checked_sub (len v') 1 >>= λ idx. ok (v', some idx)

  unfoldable pub add_selector_associated_handlers :
      ElementContentHandlers H
      → ContentHandlersDispatcher H
      → Outcome E (ContentHandlersDispatcher H × SelectorHandlersLocator)
  unfolding push_located
  add_selector_associated_handlers handlers d =
      push_located handlers.element d.element_handlers >>= λ (element_handlers, element_idx).
      push_located handlers.comments d.comment_handlers >>= λ (comment_handlers, comment_idx).
      push_located handlers.text d.text_handlers >>= λ (text_handlers, text_idx). ok (
        record d {
          element_handlers = element_handlers;
          comment_handlers = comment_handlers;
          text_handlers = text_handlers;
        },
        record {
          element_handler_idx = element_idx;
          comment_handler_idx = comment_idx;
          text_handler_idx = text_idx;
        },
      )

  -- `if let Some(idx) = … { v.inc_user_count(idx) }`, and the same for `dec_user_count`.
  unfoldable pub inc_some : Option ℕ → HandlerVec H → Outcome E (HandlerVec H)
  inc_some none v = ok v
  inc_some (some idx) v = inc_user_count idx v

  unfoldable pub dec_some : Option ℕ → HandlerVec H → Outcome E (HandlerVec H)
  dec_some none v = ok v
  dec_some (some idx) v = dec_user_count idx v

  -- What `start_matching` does for an element that has content.
  unfoldable pub acquire :
      SelectorHandlersLocator
      → ContentHandlersDispatcher H
      → Outcome E (ContentHandlersDispatcher H)
  unfolding inc_some
  acquire locator d =
      inc_some locator.comment_handler_idx d.comment_handlers >>= λ comment_handlers.
      inc_some locator.text_handler_idx d.text_handlers >>= λ text_handlers.
      ok (record d { comment_handlers = comment_handlers; text_handlers = text_handlers })

  unfoldable pub start_matching :
      MatchInfo → ContentHandlersDispatcher H → Outcome E (ContentHandlersDispatcher H)
  unfolding inc_some acquire
  start_matching match_info d =
      let locator = match_info.payload in
      (if match_info.with_content then acquire locator d else ok d) >>= λ d'.
      inc_some locator.element_handler_idx d'.element_handlers >>= λ element_handlers.
      ok (record d' {
        element_handlers = element_handlers;
        next_element_can_have_content = match_info.with_content;
      })

  -- The loop of `stop_matching`.
  unfoldable pub release :
      List SelectorHandlersLocator
      → ContentHandlersDispatcher H
      → Outcome E (ContentHandlersDispatcher H)
  unfolding dec_some
  release [] d = ok d
  release (locator ∷ locators) d =
      dec_some locator.comment_handler_idx d.comment_handlers >>= λ comment_handlers.
      dec_some locator.text_handler_idx d.text_handlers >>= λ text_handlers.
      release locators
        (record d { comment_handlers = comment_handlers; text_handlers = text_handlers })

  unfoldable pub stop_matching :
      ElementDescriptor → ContentHandlersDispatcher H → Outcome E (ContentHandlersDispatcher H)
  unfolding release inc_some
  stop_matching elem_desc d = release elem_desc.matched_content_handlers d >>= λ d'.
      inc_some elem_desc.end_tag_handler_idx d'.end_tag_handlers >>= λ end_tag_handlers.
      (if elem_desc.remove_content
        then checked_sub d'.matched_elements_with_removed_content 1
        else ok d'.matched_elements_with_removed_content)
      >>= λ count. ok (record d' {
        end_tag_handlers = end_tag_handlers;
        matched_elements_with_removed_content = count;
      })

unfoldable pub has_matched_elements_with_removed_content :
    {H : Type 0} → ContentHandlersDispatcher H → Bool
has_matched_elements_with_removed_content d = ltb 0 d.matched_elements_with_removed_content

unfoldable pub get_token_capture_flags :
    {H : Type 0} → ContentHandlersDispatcher H → TokenCaptureFlags
get_token_capture_flags d = record {
  text = has_active d.text_handlers;
  comments = has_active d.comment_handlers;
  next_start_tag = has_active d.element_handlers;
  next_end_tag = has_active d.end_tag_handlers;
  doctypes = has_active d.doctype_handlers;
}
