-- ===== src/WebLink/Identity.antt =====
-- Which subscriber a Telegram account stands for, whatever else src/inbound/web_link.rs keeps.
use Prim.Native.String.{String}
use text.Mathlib.TextLemmas.{append_cancel_left}
use geodineum_comms.Prelude.{
  ℕ, ◌≡◌, refl, ap, sym, ◌∙◌, ◌==◌, eq_iff, true, false, Option, none, some, arith, if◌then◌else◌,
}
use geodineum_comms.Prelude.Dict.{Dict, lookup, remove, lookup-remove}
use geodineum_comms.WebLink.{WebLink, route_key, web_key, get_json}
use geodineum_comms.WebLink.Linking.{
  Book, Saves, Code, LinkOutcome, new_link, link_key, is_spent, unlink, unlink_web,
}

-- The identities of the accounts: all that a reader of the book may rely on.
abbrev pub Identities : Type 0
Identities = String → Option WebLink

abbrev pub identities : String → Book → Identities
identities link_site b operator = lookup (web_key link_site operator) b.links.webs

-- The identities where one account has another one.
abbrev pub assign : String → Option WebLink → Identities → Identities
assign operator identity all other = if operator == other then identity else all other

web_key_inj : (link_site a b : String) → web_key link_site a ≡ web_key link_site b → a ≡ b
unfolding web_key
web_key_inj link_site a b h =
    append_cancel_left "}:gnode:comms:web:" a b
      (append_cancel_left link_site _ _ (append_cancel_left "{" _ _ h))

same_account : (link_site a b : String) → (web_key link_site a == web_key link_site b) ≡ (a == b)
same_account link_site a b = ground (
  arith,
  eq_iff (web_key link_site a) (web_key link_site b),
  eq_iff a b,
  web_key_inj link_site a b,
  key_of,
)
  where
    key_of : a ≡ b → web_key link_site a ≡ web_key link_site b
    key_of e = ap (web_key link_site) e

unassigned :
    (link_site operator other : String) (m : Dict WebLink)
    → lookup (web_key link_site other) (remove (web_key link_site operator) m)
      ≡ (if operator == other then none else lookup (web_key link_site other) m)
unassigned link_site operator other m =
    lookup-remove (web_key link_site operator) (web_key link_site other) m
    ∙ ap (λ b. if b then none else lookup (web_key link_site other) m)
        (same_account link_site operator other)

module _ (saves : Saves) (link_site site code_text operator chat : String) (now_ms : ℕ) (b : Book)
    (other : String) where
  -- A link that was made with the site's code: if its record could be written, the account has the code's
  -- subscriber as its one identity; no other account has another one; and if the deletion went through,
  -- the route of another subscriber that the account had before is gone.
  pub record IsLinking (r : Book × LinkOutcome) : Type 0 where
    pub of_code : Code
    pub there : get_json b.links.up b.codes (link_key site code_text) ≡ some of_code
    pub unspent : is_spent now_ms of_code ≡ false
    pub assigned_to : identities link_site r.0 other ≡ (
        if saves.web
        then assign operator
            (some (new_link site of_code.consumer chat now_ms))
            (identities link_site b)
            other
        else identities link_site b other)
    pub old_ends :
        (old : WebLink)
        → identities link_site b operator ≡ some old
        → saves.old_route ≡ true
        → (route_key site of_code.consumer == route_key old.site old.consumer) ≡ false
        → lookup (route_key old.site old.consumer) r.0.links.routes ≡ none

  -- Unlinking refines it too, if the record could be deleted: the account has no identity any more, and
  -- all others keep theirs.
  pub unlink_refines :
      b.links.up ≡ true
      → saves.web ≡ true
      → identities link_site (unlink saves link_site operator b).0 other
        ≡ assign operator none (identities link_site b) other
  unfolding unlink
  unlink_refines up w = simp up (by_web (lookup (web_key link_site operator) b.links.webs) refl)
    where
      by_web :
          (o : Option WebLink)
          → lookup (web_key link_site operator) b.links.webs ≡ o
          → identities link_site
              (unlink_web saves (web_key link_site operator) operator o b).0
              other
            ≡ assign operator none (identities link_site b) other
      by_web (some web) e = rw w (unassigned link_site operator other b.links.webs)
      by_web none e = ground (arith, eq_iff operator other, e, same)
        where
          same : operator ≡ other → lookup (web_key link_site other) b.links.webs ≡ none
          same h = ap (λ k. lookup (web_key link_site k) b.links.webs) (sym h) ∙ e
