-- ===== src/Rewriter/HandlersDispatcher/Users.antt =====
-- Which handlers the start of a match and the end of a matched element count users of.
use lol_html.Base.Checked.{checked_sub, checked_sub-eq}
use lol_html.Base.Outcome.{ok, bind-eq-ok, ok-injective}
use lol_html.Prelude.{
  ℕ, ◌+◌, Bool, true, false, List, [], ◌∷◌, map, Option, none, some, if◌then◌else◌, ◌≡◌, refl, sym,
  ◌∙◌, arith,
}
use lol_html.Rewriter.HandlerVec.Users.{
  Gained, Gained-refl, Gained-none, Gained-cons, inc_user_count-Gained, dec_user_count-Gained,
}
use lol_html.Rewriter.HandlerVec.{HandlerVec}
use lol_html.Rewriter.HandlersDispatcher.{
  SelectorHandlersLocator, MatchInfo, ElementDescriptor, ContentHandlersDispatcher, inc_some,
  dec_some, acquire, start_matching, release, stop_matching,
}

-- The vectors that neither a start nor an end of a matched element changes.
pub record SameRest {H : Type 0} (d d' : ContentHandlersDispatcher H) : Type 0 where
  pub doctype : d'.doctype_handlers ≡ d.doctype_handlers
  pub end_ : d'.end_handlers ≡ d.end_handlers

-- The handlers of comments and texts at the indices of the locators have a user more for each.
pub record GainedContent {H : Type 0} (ls : List SelectorHandlersLocator)
    (d d' : ContentHandlersDispatcher H) : Type 0 where
  pub comments : Gained (map (λ l. l.comment_handler_idx) ls) d.comment_handlers d'.comment_handlers
  pub texts : Gained (map (λ l. l.text_handler_idx) ls) d.text_handlers d'.text_handlers

-- What the start of a match leaves.
pub record Started {H : Type 0} (match_info : MatchInfo) (d d' : ContentHandlersDispatcher H)
    : Type 0 where
  pub elements :
      Gained (match_info.payload.element_handler_idx ∷ []) d.element_handlers d'.element_handlers
  pub content : GainedContent (if match_info.with_content then match_info.payload ∷ [] else []) d d'
  pub can_have_content : d'.next_element_can_have_content ≡ match_info.with_content
  pub end_tags : d'.end_tag_handlers ≡ d.end_tag_handlers
  pub removed : d'.matched_elements_with_removed_content ≡ d.matched_elements_with_removed_content
  pub rest : SameRest d d'

-- What the end of a matched element leaves.
pub record Stopped {H : Type 0} (elem_desc : ElementDescriptor) (d d' : ContentHandlersDispatcher H)
    : Type 0 where
  pub end_tags : Gained (elem_desc.end_tag_handler_idx ∷ []) d.end_tag_handlers d'.end_tag_handlers
  pub content : GainedContent elem_desc.matched_content_handlers d' d
  pub removed :
      d.matched_elements_with_removed_content
      ≡ d'.matched_elements_with_removed_content + (if elem_desc.remove_content then 1 else 0)
  pub can_have_content : d'.next_element_can_have_content ≡ d.next_element_can_have_content
  pub elements : d'.element_handlers ≡ d.element_handlers
  pub rest : SameRest d d'

module _ {H : Type 0} where
  -- Of the dispatcher only the vectors of comments and texts differ.
  record OnlyContent (d d' : ContentHandlersDispatcher H) : Type 0 where
    elements : d'.element_handlers ≡ d.element_handlers
    end_tags : d'.end_tag_handlers ≡ d.end_tag_handlers
    can_have_content : d'.next_element_can_have_content ≡ d.next_element_can_have_content
    removed : d'.matched_elements_with_removed_content ≡ d.matched_elements_with_removed_content
    rest : SameRest d d'

  OnlyContent-refl : (d : ContentHandlersDispatcher H) → OnlyContent d d
  OnlyContent-refl d = record {
    elements = refl;
    end_tags = refl;
    can_have_content = refl;
    removed = refl;
    rest = record { doctype = refl; end_ = refl };
  }

module _ {E : Type 0} where
  count_removed :
      (remove_content : Bool) (count : ℕ) {count' : ℕ}
      → (if remove_content then checked_sub {E = E} count 1 else ok count) ≡ ok count'
      → count ≡ count' + (if remove_content then 1 else 0)
  count_removed true count e = checked_sub-eq count 1 e
  count_removed false count e = rw (ok-injective e) (omega arith)

module _ {H E : Type 0} where
  inc_some-Gained :
      (idx : Option ℕ) (v : HandlerVec H) {v' : HandlerVec H}
      → inc_some {E = E} idx v ≡ ok v'
      → Gained (idx ∷ []) v v'
  unfolding inc_some
  inc_some-Gained none v e = rw (← ok-injective e) (Gained-none v)
  inc_some-Gained (some idx) v e = inc_user_count-Gained idx v e

  dec_some-Gained :
      (idx : Option ℕ) (v : HandlerVec H) {v' : HandlerVec H}
      → dec_some {E = E} idx v ≡ ok v'
      → Gained (idx ∷ []) v' v
  unfolding dec_some
  dec_some-Gained none v e = rw (← ok-injective e) (Gained-none v)
  dec_some-Gained (some idx) v e = dec_user_count-Gained idx v e

  acquired :
      (l : SelectorHandlersLocator) (d : ContentHandlersDispatcher H)
      {d' : ContentHandlersDispatcher H}
      → acquire {E = E} l d ≡ ok d'
      → GainedContent (l ∷ []) d d' × OnlyContent d d'
  unfolding acquire
  acquired l d e =
      let (comments, e1, e2) = bind-eq-ok (inc_some l.comment_handler_idx d.comment_handlers) _ e in
      let (texts, e3, e4) = bind-eq-ok (inc_some l.text_handler_idx d.text_handlers) _ e2 in
      rw (← ok-injective e4) (
        record {
          comments = inc_some-Gained l.comment_handler_idx d.comment_handlers e1;
          texts = inc_some-Gained l.text_handler_idx d.text_handlers e3;
        },
        record {
          elements = refl;
          end_tags = refl;
          can_have_content = refl;
          removed = refl;
          rest = record { doctype = refl; end_ = refl };
        },
      )

  acquired_if :
      (with_content : Bool) (l : SelectorHandlersLocator) (d : ContentHandlersDispatcher H)
      {d' : ContentHandlersDispatcher H}
      → (if with_content then acquire {E = E} l d else ok d) ≡ ok d'
      → GainedContent (if with_content then l ∷ [] else []) d d' × OnlyContent d d'
  acquired_if true l d e = acquired l d e
  acquired_if false l d e = rw (← ok-injective e) (
    record { comments = Gained-refl d.comment_handlers; texts = Gained-refl d.text_handlers },
    OnlyContent-refl d,
  )

  released :
      (ls : List SelectorHandlersLocator) (d : ContentHandlersDispatcher H)
      {d' : ContentHandlersDispatcher H}
      → release {E = E} ls d ≡ ok d'
      → GainedContent ls d' d × OnlyContent d d'
  unfolding release
  released [] d e = rw (← ok-injective e) (
    record { comments = Gained-refl d.comment_handlers; texts = Gained-refl d.text_handlers },
    OnlyContent-refl d,
  )
  released (l ∷ ls) d {d'} e =
      let (comments, e1, e2) = bind-eq-ok (dec_some l.comment_handler_idx d.comment_handlers) _ e in
      let (texts, e3, e4) = bind-eq-ok (dec_some l.text_handler_idx d.text_handlers) _ e2 in
      let (g, o) =
        released ls (record d { comment_handlers = comments; text_handlers = texts }) e4 in
      (
        record {
          comments =
              Gained-cons l.comment_handler_idx (map (λ x. x.comment_handler_idx) ls)
                d'.comment_handlers comments d.comment_handlers
                (dec_some-Gained l.comment_handler_idx d.comment_handlers e1) g.comments;
          texts =
              Gained-cons l.text_handler_idx (map (λ x. x.text_handler_idx) ls) d'.text_handlers
                texts d.text_handlers (dec_some-Gained l.text_handler_idx d.text_handlers e3)
                g.texts;
        },
        record {
          elements = o.elements;
          end_tags = o.end_tags;
          can_have_content = o.can_have_content;
          removed = o.removed;
          rest = record { doctype = o.rest.doctype; end_ = o.rest.end_ };
        },
      )

  -- The start of a match that succeeds gives a user more to just the element handler that the
  -- locator names, and, if the element has content, to the comment handler and the text handler that
  -- it names. Each vector's own count grows with its handlers' ones, and the dispatcher notes whether
  -- the element can have content. Nothing else changes.
  pub start_matching-Started :
      (match_info : MatchInfo) (d : ContentHandlersDispatcher H) {d' : ContentHandlersDispatcher H}
      → start_matching {E = E} match_info d ≡ ok d'
      → Started match_info d d'
  unfolding start_matching
  start_matching-Started match_info d e =
      let l = match_info.payload in
      let (d1, e1, e2) =
        bind-eq-ok (if match_info.with_content then acquire {E = E} l d else ok d) _ e in
      let (g, o) = acquired_if match_info.with_content l d e1 in
      let (elements, e3, e4) =
        bind-eq-ok (inc_some l.element_handler_idx d1.element_handlers) _ e2 in
      let gained = inc_some-Gained l.element_handler_idx d1.element_handlers e3 in
      rw (← ok-injective e4) (record {
        elements = rw o.elements at gained;
        content = record { comments = g.comments; texts = g.texts };
        can_have_content = refl;
        end_tags = o.end_tags;
        removed = o.removed;
        rest = record { doctype = o.rest.doctype; end_ = o.rest.end_ };
      })

  -- The end of a matched element that succeeds takes a user from just the comment handlers and the
  -- text handlers that its locators name, one for each time that they are named, and gives one to
  -- its end tag handler, if it has one. Each vector's own count changes with its handlers' ones. Of
  -- the elements with removed content there is one less, if the element is such a one. Nothing else
  -- changes.
  pub stop_matching-Stopped :
      (elem_desc : ElementDescriptor) (d : ContentHandlersDispatcher H)
      {d' : ContentHandlersDispatcher H}
      → stop_matching {E = E} elem_desc d ≡ ok d'
      → Stopped elem_desc d d'
  unfolding stop_matching
  stop_matching-Stopped elem_desc d e =
      let (d1, e1, e2) = bind-eq-ok (release elem_desc.matched_content_handlers d) _ e in
      let (g, o) = released elem_desc.matched_content_handlers d e1 in
      let (ends, e3, e4) =
        bind-eq-ok (inc_some elem_desc.end_tag_handler_idx d1.end_tag_handlers) _ e2 in
      let (count, e5, e6) = bind-eq-ok _ _ e4 in
      let gained = inc_some-Gained elem_desc.end_tag_handler_idx d1.end_tag_handlers e3 in
      let fewer =
        count_removed elem_desc.remove_content d1.matched_elements_with_removed_content e5 in
      rw (← ok-injective e6) (record {
        end_tags = rw o.end_tags at gained;
        content = record { comments = g.comments; texts = g.texts };
        removed = sym o.removed ∙ fewer;
        can_have_content = o.can_have_content;
        elements = o.elements;
        rest = record { doctype = o.rest.doctype; end_ = o.rest.end_ };
      })
