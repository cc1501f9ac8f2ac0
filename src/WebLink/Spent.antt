-- ===== src/WebLink/Spent.antt =====
-- What a link of src/inbound/web_link.rs is good for, and that its code is good for one.
use Prim.Native.String.{String}
use geodineum_comms.Prelude.{
  ℕ, ◌≡◌, refl, ap, sym, ◌∙◌, eq_refl, true, false, Bool-cases, inl, inr, Option, none, some, arith,
}
use geodineum_comms.Prelude.Chars.{is_empty_text}
use geodineum_comms.Prelude.Dict.{Dict, lookup-insert}
use geodineum_comms.WebLink.{Route, route_key, web_key, is_consumer, get_json, chat_for}
use geodineum_comms.WebLink.Linking.{
  Book, Saves, Code, LinkOutcome, linked, expired, link, link_code, link_route, linking, is_spent,
  valid, link_key,
}

-- What a code that was spent leaves.
record IsMade (saves : Saves) (link_site site code_text operator chat : String) (now_ms : ℕ)
    (b : Book) (r : Book × LinkOutcome) : Type 0 where
  of_code : Code
  there : get_json b.links.up b.codes (link_key site code_text) ≡ some of_code
  route : Route
  up : b.links.up ≡ true
  follows : is_consumer of_code.consumer ≡ true
  made : r.0 ≡ linking saves link_site site code_text operator chat now_ms of_code.consumer route b

linked≢expired : {site lane : String} → linked site lane ≡ expired → ⊥
linked≢expired q = cc

module _ (saves : Saves) (link_site site code_text operator chat : String) (now_ms : ℕ)
    (b : Book) where
  is_up :
      {A : Type 0} (m : Dict A) (key : String) (a : A)
      → get_json b.links.up m key ≡ some a
      → b.links.up ≡ true
  is_up m key a h = ground arith

  unspent_consumer : (c : Code) → is_spent now_ms c ≡ false → is_consumer c.consumer ≡ true
  unspent_consumer c h = ground arith

  route-IsMade :
      (c : Code)
      → get_json b.links.up b.codes (link_key site code_text) ≡ some c
      → b.links.up ≡ true
      → is_spent now_ms c ≡ false
      → (o : Option Route) (lane : String)
      → (link_route saves link_site site code_text operator chat now_ms c.consumer o b).1
        ≡ linked site lane
      → IsMade saves link_site site code_text operator chat now_ms b
          (link_route saves link_site site code_text operator chat now_ms c.consumer o b)
  route-IsMade c t up u none lane h = absurd (linked≢expired (sym h))
  route-IsMade c t up u (some route) lane h = elim (Bool-cases (valid c.consumer route)) [
    | inr e ↦ absurd (linked≢expired (sym (rw e at h)))
    | inl e ↦ rw e (record {
      of_code = c;
      there = t;
      route = route;
      up = up;
      follows = unspent_consumer c u;
      made = refl;
    })
  ]

  link-IsMade :
      (lane : String)
      → (link saves link_site site code_text operator chat now_ms b).1 ≡ linked site lane
      → IsMade saves link_site site code_text operator chat now_ms b
          (link saves link_site site code_text operator chat now_ms b)
  unfolding link
  link-IsMade lane h = by_code (get_json b.links.up b.codes (link_key site code_text)) refl h
    where
      by_code :
          (o : Option Code)
          → get_json b.links.up b.codes (link_key site code_text) ≡ o
          → (link_code saves link_site site code_text operator chat now_ms o b).1 ≡ linked site lane
          → IsMade saves link_site site code_text operator chat now_ms b
              (link_code saves link_site site code_text operator chat now_ms o b)
      by_code none e k = absurd (linked≢expired (sym k))
      by_code (some c) e k = elim (Bool-cases (is_spent now_ms c)) [
        | inl spent ↦ absurd (linked≢expired (sym (rw spent at k)))
        | inr u ↦ simp u (
            route-IsMade c e (is_up b.codes (link_key site code_text) c e) u
              (get_json b.links.up b.links.routes (route_key site c.consumer)) lane (simp u at k))
      ]

  spent_again :
      (again : Saves) (consumer : String) (route : Route) (other_operator other_chat : String)
      (later : ℕ)
      → b.links.up ≡ true
      → saves.answer ≡ true
      → (link again link_site site code_text other_operator other_chat later
          (linking saves link_site site code_text operator chat now_ms consumer route b)).1
        ≡ expired
  unfolding link
  spent_again again consumer route other_operator other_chat later up w =
      simp (up, w, lookup-insert, eq_refl (link_key site code_text)) refl

  chat_of_linking :
      (consumer : String) (route : Route)
      → b.links.up ≡ true
      → saves.web ≡ true
      → saves.route ≡ true
      → is_consumer consumer ≡ true
      → is_empty_text chat ≡ false
      → chat_for
          (linking saves link_site site code_text operator chat now_ms consumer route b).links
          link_site
          site
          consumer
        ≡ some chat
  unfolding chat_for
  chat_of_linking consumer route up w v good full =
      simp
        (
          good,
          up,
          w,
          v,
          lookup-insert,
          eq_refl (route_key site consumer),
          eq_refl (web_key link_site operator),
          eq_refl site,
          eq_refl consumer,
          full,
        )
        refl

  -- A code whose answer could be written is spent once: after a link by it, no account is linked by it, at
  -- whatever time.
  pub link_once :
      (again : Saves) (lane other_operator other_chat : String) (later : ℕ)
      → saves.answer ≡ true
      → (link saves link_site site code_text operator chat now_ms b).1 ≡ linked site lane
      → (link again link_site site code_text other_operator other_chat later
          (link saves link_site site code_text operator chat now_ms b).0).1
        ≡ expired
  link_once again lane other_operator other_chat later w h =
      let k = link-IsMade lane h in
      ap (λ x. (link again link_site site code_text other_operator other_chat later x).1) k.made
      ∙ spent_again again k.of_code.consumer k.route other_operator other_chat later k.up w

  -- Where a link could write its record and its route, the chat that it names is the one that the
  -- dispatcher then finds for the subscriber of the site's code.
  pub chat_for-link :
      (lane : String)
      → saves.web ≡ true
      → saves.route ≡ true
      → is_empty_text chat ≡ false
      → (link saves link_site site code_text operator chat now_ms b).1 ≡ linked site lane
      → (c : Code) × (get_json b.links.up b.codes (link_key site code_text) ≡ some c)
        × (chat_for
              (link saves link_site site code_text operator chat now_ms b).0.links
              link_site
              site
              c.consumer
            ≡ some chat)
  chat_for-link lane w v full h =
      let k = link-IsMade lane h in
      (
        k.of_code,
        k.there,
        ap (λ x. chat_for x.links link_site site k.of_code.consumer) k.made
            ∙ chat_of_linking k.of_code.consumer k.route k.up w v k.follows full,
      )
