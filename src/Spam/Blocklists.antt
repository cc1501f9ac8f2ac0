-- ===== src/Spam/Blocklists.antt =====
-- What the blocklists do to the verdict.
use geodineum_comms.Prelude.{
  some_inj, ℕ, ◌+◌, ◌≤◌, String, eq_refl, ◌≡◌, refl, sym, ap, ◌∙◌, ◌⊎◌, inl, inr, true, Option,
  none, some, List, [], ◌∷◌, ◌++◌, arith, map, if◌then◌else◌, Bool-cases,
}
use mathlib.Core.List.{append-nil, append_assoc}
use geodineum_comms.Prelude.Texts.{In, contains}
use geodineum_comms.Message.{CommsMessage, SenderInfo}
use geodineum_comms.Spam.{
  Unicode, SpamFilter, extend, default_filter, with_extra_blocklists, Score, check_ip, check_sender,
  check_text, check_keywords, contains_text, score_of, check, check_email, check_domain,
  content_text,
}

-- The points of the keywords that a text contains.
keyword_points : String → List String → ℕ
keyword_points text [] = 0
keyword_points text (k ∷ ks) =
    let rest = keyword_points text ks in if contains_text text k then 3 + rest else rest

check_keywords-points :
    (text : String) (ks : List String) (s : Score)
    → (check_keywords text ks s).points ≡ s.points + keyword_points text ks
unfolding check_keywords keyword_points
check_keywords-points text [] s = omega arith
check_keywords-points text (k ∷ ks) s = elim (Bool-cases (contains_text text k)) [
  | inl hit ↦ simp hit (omega (arith, check_keywords-points text ks _))
  | inr miss ↦ simp miss (omega (arith, check_keywords-points text ks s))
]

keyword_points-append :
    (text : String) (xs ys : List String)
    → keyword_points text (xs ++ ys) ≡ keyword_points text xs + keyword_points text ys
unfolding keyword_points
keyword_points-append text [] ys = omega arith
keyword_points-append text (k ∷ xs) ys = ground (arith, keyword_points-append text xs ys)

-- what is added to a set comes behind it
extend-more : (set xs : List String) → (more : List String) × (extend set xs ≡ set ++ more)
unfolding extend
extend-more set [] = ([], sym (append-nil set))
extend-more set (x ∷ xs) = elim (Bool-cases (contains x set)) [
  | inl old ↦ rw old (extend-more set xs)
  | inr new ↦
      let (more, e) = extend-more (set ++ x ∷ []) xs in
      (x ∷ more, rw new (e ∙ append_assoc set (x ∷ []) more))
]

check_text-points :
    (u : Unicode) (text : Option String) (n : ℕ) (why : String) (s t : Score)
    → s.points ≤ t.points
    → (check_text u text n why s).points ≤ (check_text u text n why t).points
check_text-points u none n why s t h = h
check_text-points u (some text) n why s t h = ground arith

check_ip-points :
    (f : SpamFilter) (ip : Option String) (s : Score) → s.points ≤ (check_ip f ip s).points
check_ip-points f none s = omega arith
check_ip-points f (some ip) s = ground arith

check_domain-points :
    (f g : SpamFilter) (domain : Option String) (s t : Score)
    → f.email_blocklist ≡ g.email_blocklist
    → s.points ≤ t.points
    → (check_domain f domain s).points ≤ (check_domain g domain t).points
check_domain-points f g none s t e h = h
check_domain-points f g (some domain) s t e h = rw e (ground arith)

-- no stage takes points away
text_keeps :
    (u : Unicode) (text : Option String) (n : ℕ) (why : String) (s : Score)
    → s.points ≤ (check_text u text n why s).points
text_keeps u none n why s = omega arith
text_keeps u (some text) n why s = ground arith

domain_keeps :
    (f : SpamFilter) (domain : Option String) (s : Score)
    → s.points ≤ (check_domain f domain s).points
domain_keeps f none s = omega arith
domain_keeps f (some domain) s = ground arith

email_keeps :
    (u : Unicode) (f : SpamFilter) (e : Option String) (s : Score)
    → s.points ≤ (check_email u f e s).points
email_keeps u f none s = omega arith
email_keeps u f (some e) s = domain_keeps f _ s

listed-append :
    (x : String) (set ys : List String) → contains x set ≡ true → contains x (set ++ ys) ≡ true
listed-append x [] ys h = cc
listed-append x (y ∷ set) ys h = ground (arith, listed-append x set ys)

contains-last : (y : String) (set : List String) → contains y (set ++ y ∷ []) ≡ true
contains-last y [] = ground (arith, eq_refl y)
contains-last y (x ∷ set) = ground (arith, contains-last y set)

contains-extend :
    (x : String) (xs set : List String)
    → (In x xs) ⊎ (contains x set ≡ true)
    → contains x (extend set xs) ≡ true
unfolding extend
contains-extend x [] set (inl h) = absurd h
contains-extend x [] set (inr h) = h
contains-extend x (y ∷ xs) set h = contains-extend x xs _ (step h)
  where
    next : List String
    next = if contains y set then set else set ++ y ∷ []

    last : contains y next ≡ true
    last = elim (Bool-cases (contains y set)) [
      | inl old ↦ rw old old
      | inr new ↦ rw new (contains-last y set)
    ]

    step : (In x (y ∷ xs)) ⊎ (contains x set ≡ true) → (In x xs) ⊎ (contains x next ≡ true)
    step (inl (inl e)) = inr (rw (← e) last)
    step (inl (inr i)) = inl i
    step (inr c) = inr (elim (Bool-cases (contains y set)) [
      | inl old ↦ rw old c
      | inr new ↦ rw new (listed-append x set (y ∷ []) c)
    ])

module _ (u : Unicode) (keywords ips : List String) (m : CommsMessage) where
  abbrev extended : SpamFilter
  extended = with_extra_blocklists u keywords ips

  -- the built-in filter has no addresses
  ip-points :
      (ip : Option String) (s : Score)
      → (check_ip default_filter ip s).points ≤ (check_ip extended ip s).points
  unfolding default_filter
  ip-points none s = omega arith
  ip-points (some ip) s = check_ip-points extended (some ip) s

  email-points :
      (e : Option String) (s t : Score)
      → s.points ≤ t.points
      → (check_email u default_filter e s).points ≤ (check_email u extended e t).points
  unfolding with_extra_blocklists
  email-points none s t h = h
  email-points (some e) s t h = check_domain-points default_filter extended _ s t refl h

  sender-points :
      (o : Option SenderInfo) (s : Score)
      → (check_sender u default_filter o s).points ≤ (check_sender u extended o s).points
  sender-points none s = omega arith
  sender-points (some sender) s =
      check_text-points u sender.name 5 _ _ _
        (email-points sender.email _ _ (ip-points sender.ip s))

  keywords-points :
      (text : String) (s t : Score)
      → s.points ≤ t.points
      → (check_keywords text default_filter.keywords_blocklist s).points
        ≤ (check_keywords text extended.keywords_blocklist t).points
  unfolding with_extra_blocklists
  keywords-points text s t h =
      let (more, e) = extend-more default_filter.keywords_blocklist (map u.to_lowercase keywords) in
      rw e (
        omega (
          arith,
          check_keywords-points text default_filter.keywords_blocklist s,
          check_keywords-points text (default_filter.keywords_blocklist ++ more) t,
          keyword_points-append text default_filter.keywords_blocklist more,
          h,
        ))

  score-points : (score_of u default_filter m).points ≤ (score_of u extended m).points
  unfolding score_of
  score-points =
      check_text-points u m.content.subject 4 _ _ _
        (keywords-points (content_text u m) _ _ (sender-points m.sender _))

  -- Blocklists of the operator's own only strengthen the filter: what the built-in lists find to be
  -- spam is spam with them too, at no smaller score.
  pub extra_blocklists_strengthen :
      (check u default_filter m).is_spam ≡ true
      → ((check u extended m).is_spam ≡ true)
        × ((check u default_filter m).score ≤ (check u extended m).score)
  unfolding check
  extra_blocklists_strengthen h = ground (arith, score-points)

  ip_listed : (ip : String) → In ip ips → contains ip extended.ip_blocklist ≡ true
  unfolding with_extra_blocklists
  ip_listed ip h = contains-extend ip ips default_filter.ip_blocklist (inl h)

  ip_scores :
      (o : Option String) (ip : String) (s : Score)
      → o ≡ some ip
      → In ip ips
      → 10 ≤ (check_ip extended o s).points
  ip_scores none ip s e h = cc
  ip_scores (some x) ip s e h = let same : x ≡ ip = cc in rw same (ground (arith, ip_listed ip h))

  sender_scores :
      (o : Option SenderInfo) (sender : SenderInfo) (ip : String) (s : Score)
      → o ≡ some sender
      → sender.ip ≡ some ip
      → In ip ips
      → 10 ≤ (check_sender u extended o s).points
  sender_scores none sender ip s es ei h = cc
  sender_scores (some x) sender ip s es ei h = omega (
    arith,
    ip_scores x.ip ip s (ap (λ y. y.ip) (some_inj es) ∙ ei) h,
    email_keeps u extended x.email (check_ip extended x.ip s),
    text_keeps u x.name 5 "Sender name appears to be gibberish"
        (check_email u extended x.email (check_ip extended x.ip s)),
  )

  listed_points :
      (sender : SenderInfo) (ip : String)
      → m.sender ≡ some sender
      → sender.ip ≡ some ip
      → In ip ips
      → 10 ≤ (score_of u extended m).points
  unfolding score_of
  listed_points sender ip es ei h = omega (
    arith,
    sender_scores m.sender sender ip (record { points = 0; reasons = [] }) es ei h,
    check_keywords-points (content_text u m) extended.keywords_blocklist
        (check_sender u extended m.sender (record { points = 0; reasons = [] })),
    text_keeps u m.content.subject 4 "Subject appears to be gibberish" (
        check_keywords (content_text u m) extended.keywords_blocklist
          (check_sender u extended m.sender (record { points = 0; reasons = [] }))),
  )

  -- A sender whose address is on the operator's list is refused whatever the message says.
  pub listed_ip_is_spam :
      (sender : SenderInfo) (ip : String)
      → m.sender ≡ some sender
      → sender.ip ≡ some ip
      → In ip ips
      → (check u extended m).is_spam ≡ true
  unfolding check
  listed_ip_is_spam sender ip es ei h = ground (arith, listed_points sender ip es ei h)
