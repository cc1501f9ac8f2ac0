-- ===== src/Router/Dispatcher/Accounting.antt =====
-- Every channel that a dispatch takes is accounted for once in its result.
use geodineum_comms.Prelude.{
  ℕ, ◌+◌, String, ◌≡◌, refl, sym, ap, ◌∙◌, inl, inr, Bool, true, false, ◌&&◌, not, Option, none,
  some, List, [], ◌∷◌, arith, Bool-cases, length, any,
}
use geodineum_comms.Prelude.Lists.{append}
use geodineum_comms.Errors.{CommsError, Result, ok, err}
use geodineum_comms.Message.{CommsMessage, RecipientConfig, is_empty}
use geodineum_comms.Settings.{SiteSettings}
use geodineum_comms.Settings.Store.{get_settings}
use geodineum_comms.Router.Channel.{Providers, World, MessageDispatcher, dispatch_to_channel}
use geodineum_comms.Router.Outcome.{
  DispatchResult, has_retryable_failures, no_result, add_skipped, add_sent, add_failed, skip_of,
  note,
}
use geodineum_comms.Router.Target.{
  Target, everyone, person, linked, refused, target_of, continue, in_world,
}
use geodineum_comms.Router.Dispatcher.{
  is_sentinel, dispatch_one, dispatch_loop, noted, counts, count_if, dispatch_to, with_settings,
  dispatch_filtered,
}

length-snoc : {A : Type 0} (xs : List A) (x : A) → length (append xs (x ∷ [])) ≡ length xs + 1
length-snoc [] x = refl
length-snoc (y ∷ ys) x = omega (arith, length-snoc ys x)

is_empty-snoc : {A : Type 0} (xs : List A) (x : A) → is_empty (append xs (x ∷ [])) ≡ false
is_empty-snoc [] x = refl
is_empty-snoc (y ∷ ys) x = refl

any-snoc :
    {A : Type 0} (p : A → Bool) (xs : List A) (x : A)
    → p x ≡ true
    → any p (append xs (x ∷ [])) ≡ true
any-snoc p [] x e = rw e refl
any-snoc p (y ∷ ys) x e = elim (Bool-cases (p y)) [
  | inl h ↦ rw h refl
  | inr h ↦ rw h (any-snoc p ys x e)
]

-- The results of the channels and the three lists of a dispatch agree.
pub record IsAccounted (n : ℕ) (r : DispatchResult) : Type 0 where
  pub total : length r.results ≡ n
  pub shared :
      length r.results
      ≡ length r.successful_channels + length r.failed_channels + length r.skipped_channels
  pub again : has_retryable_failures r ≡ not (is_empty r.failed_channels)

recount : {n k : ℕ} (r : DispatchResult) → n ≡ k → IsAccounted n r → IsAccounted k r
recount r e h = record { total = h.total ∙ e; shared = h.shared; again = h.again }

add_skipped-IsAccounted :
    (p : Providers) (name why : String) (n : ℕ) (r : DispatchResult)
    → IsAccounted n r
    → IsAccounted (n + 1) (add_skipped p name why r)
unfolding add_skipped has_retryable_failures
add_skipped-IsAccounted p name why n r h = record {
  total = length-snoc r.results _ ∙ ap (λ k. k + 1) h.total;
  shared = rw (length-snoc r.results, length-snoc r.skipped_channels) (omega (arith, h.shared));
  again = h.again;
}

add_sent-IsAccounted :
    (p : Providers) (name : String) (id : Option String) (n : ℕ) (r : DispatchResult)
    → IsAccounted n r
    → IsAccounted (n + 1) (add_sent p name id r)
unfolding add_sent has_retryable_failures
add_sent-IsAccounted p name id n r h = record {
  total = length-snoc r.results _ ∙ ap (λ k. k + 1) h.total;
  shared = rw (length-snoc r.results, length-snoc r.successful_channels) (omega (arith, h.shared));
  again = h.again;
}

add_failed-IsAccounted :
    (p : Providers) (name : String) (e : CommsError) (n : ℕ) (r : DispatchResult)
    → IsAccounted n r
    → IsAccounted (n + 1) (add_failed p name e r)
unfolding add_failed has_retryable_failures
add_failed-IsAccounted p name e n r h = record {
  total = length-snoc r.results _ ∙ ap (λ k. k + 1) h.total;
  shared = rw (length-snoc r.results, length-snoc r.failed_channels) (omega (arith, h.shared));
  again =
      any-snoc (λ x. x.retryable) r.failed_channels _ refl
      ∙ ap not (sym (is_empty-snoc r.failed_channels _));
}

note-IsAccounted :
    (p : Providers) (name : String) (x : Result (Option String)) (n : ℕ) (r : DispatchResult)
    → IsAccounted n r
    → IsAccounted (n + 1) (note p name x r)
unfolding note
note-IsAccounted p name (ok id) n r h = add_sent-IsAccounted p name id n r h
note-IsAccounted p name (err e) n r h = by_skip (skip_of e)
  where
    by_skip :
        (o : Option (String × String))
        → IsAccounted (n + 1) (elim o as (λ q. DispatchResult) [
          | some (c, m) ↦ add_skipped p c m r
          | none ↦ add_failed p name e r
        ])
    by_skip none = add_failed-IsAccounted p name e n r h
    by_skip (some (c, m)) = add_skipped-IsAccounted p c m n r h

module _ (p : Providers) (d : MessageDispatcher) (message : CommsMessage) where
  noted-IsAccounted :
      (name : String) (n : ℕ) (r : DispatchResult) (x : World × Result (Option String))
      → IsAccounted n r
      → IsAccounted (n + 1) (noted p name r x).1
  noted-IsAccounted name n r (w, o) h = note-IsAccounted p name o n r h

  dispatch_one-IsAccounted :
      (settings : SiteSettings) (addressed : Option RecipientConfig) (name : String) (w : World)
      (n : ℕ) (r : DispatchResult)
      → IsAccounted n r
      → IsAccounted (n + 1) (dispatch_one p d message settings addressed name w r).1
  unfolding dispatch_one
  dispatch_one-IsAccounted settings addressed name w n r h = elim (Bool-cases (is_sentinel name)) [
    | inl e ↦ rw e (add_skipped-IsAccounted p name "recorded only" n r h)
    | inr e ↦
        rw e
          (noted-IsAccounted name n r (dispatch_to_channel p d name message settings addressed w) h)
  ]

  -- The loop over the channels gives each one result, and puts each in exactly one of the lists of the
  -- channels that were sent, failed or were skipped; a failure is always one to be tried again.
  pub dispatch_loop-IsAccounted :
      (settings : SiteSettings) (addressed : Option RecipientConfig) (names : List String)
      (w : World) (n : ℕ) (r : DispatchResult)
      → IsAccounted n r
      → IsAccounted (n + length names) (dispatch_loop p d message settings addressed names w r).1
  unfolding dispatch_loop
  dispatch_loop-IsAccounted settings addressed [] w n r h = recount r (omega arith) h
  dispatch_loop-IsAccounted settings addressed (name ∷ names) w n r h = recount _ step (
      dispatch_loop-IsAccounted settings addressed names
        (dispatch_one p d message settings addressed name w r).0 (n + 1)
        (dispatch_one p d message settings addressed name w r).1
        (dispatch_one-IsAccounted settings addressed name w n r h))
    where
      step : n + 1 + length names ≡ n + length (name ∷ names)
      step = omega arith

  -- What a failure of a dispatch means to its caller.
  AllAgain : World × Result DispatchResult → Type 0
  AllAgain x =
      (r : DispatchResult)
      → x.1 ≡ ok r
      → has_retryable_failures r ≡ not (is_empty r.failed_channels)

  ok_again :
      (w : World) (r : DispatchResult)
      → has_retryable_failures r ≡ not (is_empty r.failed_channels)
      → AllAgain (w, ok r)
  unfolding AllAgain
  ok_again w r h x e = same
    where
      result : Result DispatchResult → DispatchResult
      result (ok y) = y
      result (err y) = r

      same : has_retryable_failures x ≡ not (is_empty x.failed_channels)
      same = rw (sym (ap result e)) h

  err_again : (w : World) (x : CommsError) → AllAgain (w, err x)
  unfolding AllAgain
  err_again w x r e = absurd (apart e)
    where
      apart : err x ≡ ok r → ⊥
      apart q = cc

  counted_again :
      (b : Bool) (x : World × DispatchResult)
      → has_retryable_failures x.1 ≡ not (is_empty x.1.failed_channels)
      → AllAgain (count_if b message.site_id x)
  counted_again b (w, r) h = elim (Bool-cases (b && counts r)) [
    | inl e ↦ rw e (ok_again _ r h)
    | inr e ↦ rw e (ok_again w r h)
  ]

  looped :
      (b : Bool) (settings : SiteSettings) (addressed : Option RecipientConfig)
      (names : List String) (w : World)
      → AllAgain (
          count_if b message.site_id
            (dispatch_loop p d message settings addressed names w (no_result message.id)))
  unfolding has_retryable_failures
  looped b settings addressed names w =
      counted_again b (dispatch_loop p d message settings addressed names w (no_result message.id))
        (dispatch_loop-IsAccounted settings addressed names w 0 (no_result message.id)
          (record { total = refl; shared = refl; again = refl })).again

  dispatch_to_again :
      (settings : SiteSettings) (only : Option (List String)) (t : Target) (w : World)
      → AllAgain (dispatch_to p d settings message only t w)
  unfolding dispatch_to has_retryable_failures
  dispatch_to_again settings only everyone w = looped false settings none _ w
  dispatch_to_again settings only (person r) w = looped true settings (some r) _ w
  dispatch_to_again settings only (linked r bot) w = looped true bot (some r) _ w
  dispatch_to_again settings only (refused name why) w = ok_again w _ refl

  with_settings_again :
      (only : Option (List String)) (found : Option SiteSettings) (w : World)
      → AllAgain (with_settings p d message only found w)
  unfolding has_retryable_failures
  with_settings_again only none w = err_again w _
  with_settings_again only (some settings) w = elim (Bool-cases settings.enabled) [
    | inr off ↦ simp off (ok_again w _ refl)
    | inl on ↦ simp on (chosen (target_of p d settings message message.to w))
  ]
    where
      chosen :
          (x : World × Result Target)
          → AllAgain (continue (dispatch_to p d settings message only) x)
      chosen (v, ok t) = dispatch_to_again settings only t v
      chosen (v, err e) = err_again v e

  -- The failures of a dispatch are to be tried again, all of them, whatever the error was: its result
  -- has a retryable failure exactly when it has a failure.
  pub dispatch_again :
      (only : Option (List String)) (w w' : World) (r : DispatchResult)
      → dispatch_filtered p d message only w ≡ (w', ok r)
      → has_retryable_failures r ≡ not (is_empty r.failed_channels)
  unfolding AllAgain dispatch_filtered
  dispatch_again only w w' r e =
      found (in_world w (get_settings message.site_id w.store)) r (ap (λ x. x.1) e)
    where
      found :
          (x : World × Result (Option SiteSettings))
          → AllAgain (continue (with_settings p d message only) x)
      found (v, ok o) = with_settings_again only o v
      found (v, err q) = err_again v q
