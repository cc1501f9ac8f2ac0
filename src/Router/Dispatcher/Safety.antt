-- ===== src/Router/Dispatcher/Safety.antt =====
-- What the loop over the channels sends.
use mathlib.Core.Path.{subst}
use geodineum_comms.Prelude.{String, ◌≡◌, refl, sym, inl, inr, Option, List, [], ◌∷◌, Bool-cases}
use geodineum_comms.Prelude.Texts.{In}
use geodineum_comms.Errors.{Result}
use geodineum_comms.Message.{CommsMessage, RecipientConfig}
use geodineum_comms.Settings.{SiteSettings}
use geodineum_comms.Router.Channel.{Sent, Providers, World, MessageDispatcher}
use geodineum_comms.Router.Channel.Gate.{
  Grows, same, Grows-trans, Grows-map, IsPlanned, dispatch_to_channel_sends,
}
use geodineum_comms.Router.Outcome.{DispatchResult}
use geodineum_comms.Router.Dispatcher.{is_sentinel, dispatch_one, dispatch_loop, noted}

module _ (p : Providers) (d : MessageDispatcher) (message : CommsMessage) (settings : SiteSettings)
    (addressed : Option RecipientConfig) where
  -- A send of the loop, over one of its channels.
  pub record IsLooped (names : List String) (s : Sent) : Type 0 where
    pub member : In s.channel names
    pub planned : IsPlanned p d s.channel message settings addressed s

  noted-sent :
      (name : String) (r : DispatchResult) (x : World × Result (Option String))
      → (noted p name r x).0.sent ≡ x.0.sent
  noted-sent name r (w, o) = refl

  dispatch_one-Grows :
      (name : String) (names : List String) (w : World) (r : DispatchResult)
      → Grows
          (IsLooped (name ∷ names))
          w.sent
          (dispatch_one p d message settings addressed name w r).0.sent
  unfolding dispatch_one
  dispatch_one-Grows name names w r = elim (Bool-cases (is_sentinel name)) [
    | inl sentinel ↦ rw sentinel same
    | inr real ↦
        rw (real, noted-sent)
          (Grows-map
            (λ s h. record {
              member = inl (sym h.on_channel);
              planned =
                  subst (λ c. IsPlanned p d c message settings addressed s) (sym h.on_channel) h;
            })
            (dispatch_to_channel_sends p d name message settings addressed w))
  ]

  -- What the loop over the channels sends goes over one of them, as that channel's own checks allow.
  pub dispatch_loop-Grows :
      (names : List String) (w : World) (r : DispatchResult)
      → Grows
          (IsLooped names)
          w.sent
          (dispatch_loop p d message settings addressed names w r).0.sent
  unfolding dispatch_loop
  dispatch_loop-Grows [] w r = same
  dispatch_loop-Grows (name ∷ names) w r = Grows-trans (dispatch_one-Grows name names w r) (
      Grows-map (λ s h. record { member = inr h.member; planned = h.planned })
        (dispatch_loop-Grows names (dispatch_one p d message settings addressed name w r).0
          (dispatch_one p d message settings addressed name w r).1))
