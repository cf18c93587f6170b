-- ===== src/Rewriter/HandlersDispatcher/Restoring.antt =====
-- What the end of a matched element gives back of what its start took.
use mathlib.Core.List.{reverse, reverse-cons}
use lol_html.Base.Outcome.{Outcome, ok, ◌>>=◌, bind-eq-ok, bind_assoc, bind_congr, ok-injective}
use lol_html.Prelude.{ℕ, true, false, List, [], ◌∷◌, ◌++◌, Option, none, some, ◌≡◌, refl, sym, ◌∙◌}
use lol_html.Rewriter.HandlerVec.Counts.{dec_user_count-inc_user_count}
use lol_html.Rewriter.HandlerVec.{HandlerVec}
use lol_html.Rewriter.HandlersDispatcher.{
  SelectorHandlersLocator, ContentHandlersDispatcher, inc_some, dec_some, acquire, start_matching,
  release, stop_matching,
}

-- The counts of content handlers of `d` in the place of those of `d'`.
abbrev pub restored :
    {H : Type 0}
    → ContentHandlersDispatcher H
    → ContentHandlersDispatcher H
    → ContentHandlersDispatcher H
restored d' d = record d' { comment_handlers = d.comment_handlers; text_handlers = d.text_handlers }

module _ {H E : Type 0} where
  dec_some-inc_some :
      (idx : Option ℕ) (v : HandlerVec H) {v' : HandlerVec H}
      → inc_some {E = E} idx v ≡ ok v'
      → dec_some {E = E} idx v' ≡ ok v
  unfolding inc_some dec_some
  dec_some-inc_some none v e = sym e
  dec_some-inc_some (some idx) v e = dec_user_count-inc_user_count v idx e

  release-append :
      (xs ys : List SelectorHandlersLocator) (d : ContentHandlersDispatcher H)
      → release {E = E} (xs ++ ys) d ≡ (release xs d >>= release ys)
  unfolding release ◌>>=◌
  release-append [] ys d = refl
  release-append (l ∷ xs) ys d =
      bind_congr (dec_some l.comment_handler_idx d.comment_handlers) _ _ (λ comments.
        bind_congr (dec_some l.text_handler_idx d.text_handlers) _ _ (λ texts.
          release-append xs ys (record d { comment_handlers = comments; text_handlers = texts }))
        ∙ sym (bind_assoc (dec_some l.text_handler_idx d.text_handlers) _ (release ys)))
      ∙ sym (bind_assoc (dec_some l.comment_handler_idx d.comment_handlers) _ (release ys))

  -- An element with content that matches selectors with these locators, one after the other.
  unfoldable pub start_all :
      List SelectorHandlersLocator
      → ContentHandlersDispatcher H
      → Outcome E (ContentHandlersDispatcher H)
  unfolding start_matching
  start_all [] d = ok d
  start_all (l ∷ ls) d =
      start_matching (record { payload = l; with_content = true }) d >>= λ d'. start_all ls d'

  started :
      (l : SelectorHandlersLocator) (d : ContentHandlersDispatcher H)
      {d' : ContentHandlersDispatcher H}
      → start_matching {E = E} (record { payload = l; with_content = true }) d ≡ ok d'
      → (inc_some {E = E} l.comment_handler_idx d.comment_handlers ≡ ok d'.comment_handlers)
        × (inc_some {E = E} l.text_handler_idx d.text_handlers ≡ ok d'.text_handlers)
  unfolding start_matching acquire
  started l d e =
      let (d1, e1, e2) = bind-eq-ok (acquire {E = E} l d) _ e in
      let (comments, e3, e4) =
        bind-eq-ok (inc_some l.comment_handler_idx d.comment_handlers) _ e1 in
      let (texts, e5, e6) = bind-eq-ok (inc_some l.text_handler_idx d.text_handlers) _ e4 in
      let (elements, e7, e8) =
        bind-eq-ok (inc_some l.element_handler_idx d1.element_handlers) _ e2 in
      let at1 = ok-injective e6 in let at2 = ok-injective e8 in rw (← at2, ← at1) (e3, e5)

  release-start_all :
      (ls : List SelectorHandlersLocator) (d : ContentHandlersDispatcher H)
      {d' : ContentHandlersDispatcher H}
      → start_all ls d ≡ ok d'
      → release {E = E} (reverse ls) d' ≡ ok (restored d' d)
  unfolding start_all release ◌>>=◌
  release-start_all [] d e = rw (← ok-injective e)
  release-start_all (l ∷ ls) d e =
      let (d1, e1, e2) =
        bind-eq-ok (start_matching {E = E} (record { payload = l; with_content = true }) d) _ e in
      let (c, t) = started l d e1 in
      rw (
        reverse-cons l ls,
        release-append (reverse ls) (l ∷ []),
        release-start_all ls d1 e2,
        dec_some-inc_some l.comment_handler_idx d.comment_handlers c,
        dec_some-inc_some l.text_handler_idx d.text_handlers t,
      )

  -- An element that has content and matches selectors makes their comment and text handlers active.
  -- At its end, if it has no end tag handler and its content was not removed, and with its locators
  -- from the last matched to the first, there is no panic, these handlers' counts are what they were
  -- before the start, and all else of the dispatcher is as the start left it.
  pub stop_matching-start_all :
      (ls : List SelectorHandlersLocator) (d : ContentHandlersDispatcher H)
      {d' : ContentHandlersDispatcher H}
      → start_all ls d ≡ ok d'
      → stop_matching {E = E}
          (record {
            matched_content_handlers = reverse ls;
            end_tag_handler_idx = none;
            remove_content = false;
          })
          d'
        ≡ ok (restored d' d)
  unfolding stop_matching ◌>>=◌ inc_some
  stop_matching-start_all ls d e = rw (release-start_all ls d e)
