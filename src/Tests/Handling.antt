-- ===== src/Tests/Handling.antt =====
-- Handlers that note their number in a log, and how they are made active and idle.
use mathlib.Core.List.{reverse}
use lol_html.Base.Checked.{checked_add, checked_sub}
use lol_html.Base.Outcome.{Outcome, ok, err, ◌>>=◌}
use lol_html.Prelude.{
  ℕ, ◌+◌, true, false, List, [], ◌∷◌, map, some, none, ◌≡◌, refl, arith, length, ◌==◌,
  if◌then◌else◌,
}
use lol_html.Rewriter.HandlerVec.Calls.{
  set_idle, idle, do_for_each_active_and_deactivate-for_each_active,
  do_for_each_active_and_remove-for_each_active,
}
use lol_html.Rewriter.HandlerVec.Counts.{IsCounted, any_active, inc_user_count-Counted}
use lol_html.Rewriter.HandlerVec.{
  HandlerVec, inc_user_count, for_each_active, do_for_each_active_and_deactivate,
  do_for_each_active_and_remove, dec_user_count,
}
use lol_html.Rewriter.HandlersDispatcher.Matching.{IsConsistent, get_token_capture_flags-any_active}
use lol_html.Rewriter.HandlersDispatcher.Restoring.{restored, start_all, stop_matching-start_all}
use lol_html.Rewriter.HandlersDispatcher.Users.{
  Started, Stopped, start_matching-Started, stop_matching-Stopped,
}
use lol_html.Rewriter.HandlersDispatcher.{
  SelectorHandlersLocator, ContentHandlersDispatcher, MatchInfo, ElementDescriptor, start_matching,
  stop_matching, get_token_capture_flags,
}

-- The handlers 10, 20 and 30, with two, no and one user.
abbrev three : HandlerVec ℕ
three = record {
  items =
      record { handler = 10; user_count = 2 }
      ∷ record { handler = 20; user_count = 0 }
      ∷ record { handler = 30; user_count = 1 }
      ∷ [];
  user_count = 3;
}

-- The handler 40 fails.
abbrev note : ℕ → List ℕ → Outcome ℕ (List ℕ)
note handler log = if handler == 40 then err handler else ok (handler ∷ log)

removed :
    do_for_each_active_and_remove note three []
    ≡ ok (
      record { items = record { handler = 20; user_count = 0 } ∷ []; user_count = 0 },
      10 ∷ 30 ∷ [],
    )
unfolding do_for_each_active_and_remove ◌>>=◌ checked_sub
removed = refl

inc_user_count-Counted_example :
    (v' : HandlerVec ℕ) × (inc_user_count {E = ℕ} 1 three ≡ ok v')
    × IsCounted v'
    × (v'.user_count ≡ three.user_count + 1)
    × (length v'.items ≡ length three.items)
inc_user_count-Counted_example = inc_user_count-Counted three 1 refl (omega arith) (omega arith)

do_for_each_active_and_deactivate-for_each_active_example :
    do_for_each_active_and_deactivate note three [] ≡ (
      for_each_active note three [] >>= λ x.
      ok (record { items = map set_idle three.items; user_count = 0 }, x))
do_for_each_active_and_deactivate-for_each_active_example =
    do_for_each_active_and_deactivate-for_each_active note three [] refl

do_for_each_active_and_remove-for_each_active_example :
    do_for_each_active_and_remove note three [] ≡ (
      for_each_active note (record three { items = reverse three.items }) [] >>= λ x.
      ok (record { items = idle three.items; user_count = 0 }, x))
do_for_each_active_and_remove-for_each_active_example =
    do_for_each_active_and_remove-for_each_active note three [] refl

abbrev handlers : ContentHandlersDispatcher ℕ
handlers = record {
  doctype_handlers = three;
  comment_handlers = three;
  text_handlers = three;
  end_tag_handlers = record { items = []; user_count = 0 };
  element_handlers = three;
  end_handlers = three;
  next_element_can_have_content = false;
  matched_elements_with_removed_content = 1;
}

handlers-IsConsistent : IsConsistent handlers
handlers-IsConsistent = record {
  doctype = refl;
  comment = refl;
  text = refl;
  end_tag = refl;
  element = refl;
  end_ = refl;
}

get_token_capture_flags-any_active_example : get_token_capture_flags handlers ≡ record {
  text = any_active three.items;
  comments = any_active three.items;
  next_start_tag = any_active three.items;
  next_end_tag = false;
  doctypes = any_active three.items;
}
get_token_capture_flags-any_active_example =
    get_token_capture_flags-any_active handlers handlers-IsConsistent

abbrev locator : SelectorHandlersLocator
locator = record {
  element_handler_idx = some 0;
  comment_handler_idx = some 1;
  text_handler_idx = some 2;
}

-- `three` after one more user of the handler at each index.
abbrev used_0 : HandlerVec ℕ
used_0 = record {
  items =
      record { handler = 10; user_count = 3 }
      ∷ record { handler = 20; user_count = 0 }
      ∷ record { handler = 30; user_count = 1 }
      ∷ [];
  user_count = 4;
}

abbrev used_1 : HandlerVec ℕ
used_1 = record {
  items =
      record { handler = 10; user_count = 2 }
      ∷ record { handler = 20; user_count = 1 }
      ∷ record { handler = 30; user_count = 1 }
      ∷ [];
  user_count = 4;
}

abbrev used_2 : HandlerVec ℕ
used_2 = record {
  items =
      record { handler = 10; user_count = 2 }
      ∷ record { handler = 20; user_count = 0 }
      ∷ record { handler = 30; user_count = 2 }
      ∷ [];
  user_count = 4;
}

abbrev matched : ContentHandlersDispatcher ℕ
matched = record handlers {
  comment_handlers = used_1;
  text_handlers = used_2;
  element_handlers = used_0;
  next_element_can_have_content = true;
}

abbrev match_with_content : MatchInfo
match_with_content = record { payload = locator; with_content = true }

start_matching-Started_example : Started match_with_content handlers matched
unfolding start_matching ◌>>=◌ inc_user_count checked_add
start_matching-Started_example = start_matching-Started {E = ℕ} match_with_content handlers refl

-- `matched` when its element has ended and its content was removed.
abbrev ended : ContentHandlersDispatcher ℕ
ended = record matched {
  comment_handlers = three;
  text_handlers = three;
  matched_elements_with_removed_content = 0;
}

abbrev with_removed_content : ElementDescriptor
with_removed_content = record {
  matched_content_handlers = locator ∷ [];
  end_tag_handler_idx = none;
  remove_content = true;
}

stop_matching-Stopped_example : Stopped with_removed_content matched ended
unfolding start_matching stop_matching ◌>>=◌ inc_user_count dec_user_count checked_add checked_sub
stop_matching-Stopped_example = stop_matching-Stopped {E = ℕ} with_removed_content matched refl

stop_matching-start_all_example :
    stop_matching {E = ℕ}
      (record {
        matched_content_handlers = locator ∷ [];
        end_tag_handler_idx = none;
        remove_content = false;
      })
      matched
    ≡ ok (restored matched handlers)
unfolding start_all ◌>>=◌ inc_user_count checked_add
stop_matching-start_all_example = stop_matching-start_all {E = ℕ} (locator ∷ []) handlers refl
